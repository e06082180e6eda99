-- ===== src/Dashboard/Markup/Skeleton.antt =====
-- What a browser takes for structure in the HTML that agent/internal/api/web/app.js writes: the tags
-- with the names of their attributes, read character by character.
use strom.Prelude.{
  ℕ, String, Text, codes, ◌≡◌, refl, ap, sym, ◌∙◌, Bool, true, false, Option, none, some, List, [],
  ◌∷◌, ◌++◌, arith, ◌==◌, if◌then◌else◌, All,
}
use strom.Dashboard.Escape.{escape_html}
use strom.Dashboard.Escape.Laws.{IsInert, escape_html-IsInert}
use strom.Dashboard.Markup.{Part, markup, value, render_parts}

-- In a text, in a tag, or in an attribute's value between double or single quotes.
pub data Mode : Type 0 where
  text tag double single : Mode

abbrev pub next_mode : Mode → ℕ → Mode
next_mode text c = if c == b'<' then tag else text
next_mode tag c =
    if c == b'>' then text else if c == b'"' then double else if c == b'\'' then single else tag
next_mode double c = if c == b'"' then tag else double
next_mode single c = if c == b'\'' then tag else single

-- The characters of tags stay, and so do the quotes; texts and attributes' values go.
abbrev pub is_kept : Mode → ℕ → Bool
is_kept text c = c == b'<'
is_kept tag c = true
is_kept double c = c == b'"'
is_kept single c = c == b'\''

unfoldable pub mode_after : Mode → Text → Mode
mode_after m [] = m
mode_after m (c ∷ t) = mode_after (next_mode m c) t

unfoldable pub skeleton : Mode → Text → Text
skeleton m [] = []
skeleton m (c ∷ t) = let rest = skeleton (next_mode m c) t in if is_kept m c then c ∷ rest else rest

-- The modes in which a value may stand.
abbrev pub takes_value : Mode → Bool
takes_value tag = false
takes_value _ = true

-- The mode behind the parts, when no value stands in a tag outside quotes.
unfoldable pub mode_parts : Mode → List Part → Option Mode
unfolding mode_after codes
mode_parts m [] = some m
mode_parts m (markup s ∷ parts) = mode_parts (mode_after m (codes s)) parts
mode_parts m (value v ∷ parts) =
    let rest = mode_parts m parts in if takes_value m then rest else none

-- The parts without what the values are.
unfoldable pub shape : List Part → List Part
shape [] = []
shape (markup s ∷ parts) = markup s ∷ shape parts
shape (value v ∷ parts) = value [] ∷ shape parts

skeleton-append :
    (m : Mode) (s t : Text) → skeleton m (s ++ t) ≡ skeleton m s ++ skeleton (mode_after m s) t
unfolding skeleton mode_after
skeleton-append m [] t = refl
skeleton-append m (c ∷ s) t = let ih = skeleton-append (next_mode m c) s t in ground arith

inert-step :
    (m : Mode) (c : ℕ)
    → takes_value m ≡ true
    → IsInert c
    → (next_mode m c ≡ m) × (is_kept m c ≡ false)
inert-step text c h i = ground arith
inert-step tag c h i = ground arith
inert-step double c h i = ground arith
inert-step single c h i = ground arith

skeleton-inert :
    (m : Mode) (v t : Text)
    → takes_value m ≡ true
    → All IsInert v
    → skeleton m (v ++ t) ≡ skeleton m t
unfolding skeleton
skeleton-inert m [] t h i = refl
skeleton-inert m (c ∷ v) t h i =
    let s = inert-step m c h i.0 in rw (s.0, s.1) (skeleton-inert m v t h i.1)

pub mode_parts-append :
    (m k : Mode) (ps qs : List Part)
    → mode_parts m ps ≡ some k
    → mode_parts m (ps ++ qs) ≡ mode_parts k qs
unfolding mode_parts
mode_parts-append m k [] qs h = grind arith
mode_parts-append m k (markup s ∷ ps) qs h = mode_parts-append (mode_after m (codes s)) k ps qs h
mode_parts-append text k (value v ∷ ps) qs h = mode_parts-append text k ps qs h
mode_parts-append tag k (value v ∷ ps) qs h = grind arith
mode_parts-append double k (value v ∷ ps) qs h = mode_parts-append double k ps qs h
mode_parts-append single k (value v ∷ ps) qs h = mode_parts-append single k ps qs h

pub shape-append : (ps qs : List Part) → shape (ps ++ qs) ≡ shape ps ++ shape qs
unfolding shape
shape-append [] qs = refl
shape-append (markup s ∷ ps) qs = ap (markup s ∷◌) (shape-append ps qs)
shape-append (value v ∷ ps) qs = ap (value [] ∷◌) (shape-append ps qs)

value-step :
    (m : Mode) (v : Text) (ps : List Part)
    → takes_value m ≡ true
    → skeleton m (render_parts ps) ≡ skeleton m (render_parts (shape ps))
    → skeleton m (render_parts (value v ∷ ps)) ≡ skeleton m (render_parts (shape (value v ∷ ps)))
unfolding shape render_parts
value-step m v ps h e =
    skeleton-inert m (escape_html v) (render_parts ps) h (escape_html-IsInert v)
    ∙ e
    ∙ sym (skeleton-inert m (escape_html []) (render_parts (shape ps)) h (escape_html-IsInert []))

markup-step :
    (m : Mode) (s : String) (ps : List Part)
    → let n : Mode = mode_after m (codes s) in
      skeleton n (render_parts ps) ≡ skeleton n (render_parts (shape ps))
      → skeleton m (render_parts (markup s ∷ ps))
        ≡ skeleton m (render_parts (shape (markup s ∷ ps)))
unfolding shape render_parts
markup-step m s ps e =
    skeleton-append m (codes s) (render_parts ps)
    ∙ ap (skeleton m (codes s) ++◌) e
    ∙ sym (skeleton-append m (codes s) (render_parts (shape ps)))

-- Where no value stands in a tag outside quotes, the structure is that of the template.
pub skeleton-render_parts :
    (m k : Mode) (ps : List Part)
    → mode_parts m ps ≡ some k
    → skeleton m (render_parts ps) ≡ skeleton m (render_parts (shape ps))
unfolding mode_parts
skeleton-render_parts m k [] h = unfold shape in refl
skeleton-render_parts m k (markup s ∷ ps) h =
    markup-step m s ps (skeleton-render_parts (mode_after m (codes s)) k ps h)
skeleton-render_parts text k (value v ∷ ps) h =
    value-step text v ps refl (skeleton-render_parts text k ps h)
skeleton-render_parts tag k (value v ∷ ps) h = grind arith
skeleton-render_parts double k (value v ∷ ps) h =
    value-step double v ps refl (skeleton-render_parts double k ps h)
skeleton-render_parts single k (value v ∷ ps) h =
    value-step single v ps refl (skeleton-render_parts single k ps h)
