-- ===== src/Dashboard/Escape/Laws.antt =====
-- Escaped text holds no character that ends an HTML text or a quoted attribute, and a browser that
-- decodes it gets the value back.
use strom.Prelude.{
  ℕ, zero, suc, ◌+◌, ◌<◌, ◌≡◌, ◌≢◌, refl, ap, sym, ◌∙◌, true, false, Option, none, some, Text,
  codes, [], ◌∷◌, ◌++◌, arith, ◌==◌, if◌then◌else◌, length, All, All-append,
}
use strom.Dashboard.Escape.{escape_html}

-- What one character becomes.
abbrev pub escape_char : ℕ → Text
escape_char c =
    if c == b'&'
    then 38 ∷ 97 ∷ 109 ∷ 112 ∷ 59 ∷ []
    else if c == b'<'
    then 38 ∷ 108 ∷ 116 ∷ 59 ∷ []
    else if c == b'>'
    then 38 ∷ 103 ∷ 116 ∷ 59 ∷ []
    else if c == b'"'
    then 38 ∷ 113 ∷ 117 ∷ 111 ∷ 116 ∷ 59 ∷ []
    else if c == 39
    then 38 ∷ 35 ∷ 51 ∷ 57 ∷ 59 ∷ []
    else c ∷ []

pub escape_each : Text → Text
escape_each [] = []
escape_each (c ∷ t) = escape_char c ++ escape_each t

escape_html-cons : (c : ℕ) (t : Text) → escape_html (c ∷ t) ≡ escape_char c ++ escape_html t
unfolding escape_html
escape_html-cons c t = ground arith

-- The five replacements in a row are one replacement of each character: no later one touches what
-- an earlier one wrote, and the ampersand of an entity is not escaped again.
pub escape_html-eq-escape_each : (t : Text) → escape_html t ≡ escape_each t
unfolding escape_each
escape_html-eq-escape_each [] = unfold escape_html in refl
escape_html-eq-escape_each (c ∷ t) =
    escape_html-cons c t ∙ ap (escape_char c ++◌) (escape_html-eq-escape_each t)

-- No `<`, no `>`, no `"` and no `'`.
abbrev pub IsInert : ℕ → Type 0
IsInert c = (c ≢ b'<') × (c ≢ b'>') × (c ≢ b'"') × (c ≢ b'\'')

escape_char-IsInert : (c : ℕ) → All IsInert (escape_char c)
escape_char-IsInert c = ground arith

-- Escaped text holds no character that opens or closes a tag or closes a quoted attribute.
pub escape_html-IsInert : (t : Text) → All IsInert (escape_html t)
escape_html-IsInert [] = unfold escape_html in tt
escape_html-IsInert (c ∷ t) =
    rw (escape_html-cons c t)
      (All-append IsInert (escape_char c) _ (escape_char-IsInert c) (escape_html-IsInert t))

-- What stands behind a prefix.
strip : Text → Text → Option Text
strip [] t = some t
strip (a ∷ p) [] = none
strip (a ∷ p) (b ∷ t) = if a == b then strip p t else none

-- A browser's reading of the five character references, with fuel for the characters that it reads.
pub decode : ℕ → Text → Text
unfolding strip codes
decode zero t = []
decode (suc f) [] = []
decode (suc f) (c ∷ t) = elim (c == b'&') [
  | false ↦ c ∷ decode f t
  | true ↦ elim (strip (codes "amp;") t) [
    | some r ↦ b'&' ∷ decode f r
    | none ↦ elim (strip (codes "lt;") t) [
      | some r ↦ b'<' ∷ decode f r
      | none ↦ elim (strip (codes "gt;") t) [
        | some r ↦ b'>' ∷ decode f r
        | none ↦ elim (strip (codes "quot;") t) [
          | some r ↦ b'"' ∷ decode f r
          | none ↦ elim (strip (codes "#39;") t) [
            | some r ↦ b'\'' ∷ decode f r
            | none ↦ c ∷ decode f t
          ]
        ]
      ]
    ]
  ]
]

pub decode-escape_char :
    (f c : ℕ) (rest : Text) → decode (suc f) (escape_char c ++ rest) ≡ c ∷ decode f rest
unfolding decode
decode-escape_char f c rest = ground arith

pub decode_nil : (f : ℕ) → decode (suc f) [] ≡ []
unfolding decode
decode_nil f = refl

pub decode_plain :
    (f c : ℕ) (rest : Text) → (c == b'&') ≡ false → decode (suc f) (c ∷ rest) ≡ c ∷ decode f rest
unfolding decode
decode_plain f c rest h = rw (h, decode) refl

-- A browser that decodes the escaped text shows the value: with fuel above the value's length the
-- decoder gives the value back.
pub decode-escape_html : (f : ℕ) (t : Text) → length t < f → decode f (escape_html t) ≡ t
decode-escape_html zero t h = absurd (omega arith)
decode-escape_html (suc f) [] h = unfold escape_html decode in refl
decode-escape_html (suc f) (c ∷ t) h =
    rw (escape_html-cons c t)
      (decode-escape_char f c (escape_html t) ∙ ap (c ∷◌) (decode-escape_html f t (omega arith)))

-- Two values that are shown alike are one value.
pub escape_html-injective : (s t : Text) → escape_html s ≡ escape_html t → s ≡ t
escape_html-injective s t e =
    let f : ℕ = suc (length s + length t) in
    sym (decode-escape_html f s (omega arith))
    ∙ ap (decode f) e
    ∙ decode-escape_html f t (omega arith)
