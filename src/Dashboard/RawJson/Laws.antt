-- ===== src/Dashboard/RawJson/Laws.antt =====
-- The highlighter adds tags only: the text on the page is the JSON.
use strom.Prelude.{
  ℕ, zero, suc, ◌-◌, ◌<◌, ◌≡◌, refl, ap, ◌∙◌, Text, codes, Bool, true, false, [], ◌∷◌, ◌++◌, arith,
  ◌==◌, if◌then◌else◌, length, All, All-append, Bool-cases, inl, inr,
}
use strom.Dashboard.Escape.Laws.{escape_char, decode, decode-escape_char, decode_plain, decode_nil}
use strom.Dashboard.RawJson.{
  TokenClass, number, key, string, boolean, null, Token, is_word, token_at, open_span, close_span,
  highlight_from, escape_json, highlight_json,
}

-- The text of an HTML element without its tags.
pub strip_tags : Bool → Text → Text
strip_tags inside [] = []
strip_tags false (c ∷ t) =
    let rest = strip_tags false t in
    let skipped = strip_tags true t in if c == b'<' then skipped else c ∷ rest
strip_tags true (c ∷ t) =
    let rest = strip_tags true t in
    let back = strip_tags false t in if c == b'>' then back else rest

-- `textContent`, with fuel for the characters that it reads.
unfoldable pub text_content : ℕ → Text → Text
unfolding strip_tags
text_content f html = decode f (strip_tags false html)

abbrev HasNoTag : ℕ → Type 0
HasNoTag c = (c == b'<') ≡ false

strip_tags-open_span :
    (k : TokenClass) (t : Text) → strip_tags false (open_span k ++ t) ≡ strip_tags false t
unfolding strip_tags open_span codes
strip_tags-open_span number t = refl
strip_tags-open_span key t = refl
strip_tags-open_span string t = refl
strip_tags-open_span boolean t = refl
strip_tags-open_span null t = refl

strip_tags-close_span :
    (left : ℕ) (t : Text) → strip_tags false (close_span left t) ≡ strip_tags false t
unfolding strip_tags close_span codes
strip_tags-close_span zero t = refl
strip_tags-close_span (suc left) t = ground arith

strip_tags_plain :
    (c : ℕ) (t : Text) → HasNoTag c → strip_tags false (c ∷ t) ≡ c ∷ strip_tags false t
unfolding strip_tags
strip_tags_plain c t h = rw (h, strip_tags) refl

strip_tags-highlight_from :
    (after_word : Bool) (left : ℕ) (t : Text)
    → All HasNoTag t
    → strip_tags false (highlight_from after_word left t) ≡ t
unfolding highlight_from
strip_tags-highlight_from after_word zero [] h = unfold strip_tags in refl
strip_tags-highlight_from after_word (suc left) [] h = unfold strip_tags in refl
strip_tags-highlight_from after_word (suc left) (c ∷ t) h =
    strip_tags_plain c _ h.0
    ∙ ap (c ∷◌) (strip_tags-close_span left _ ∙ strip_tags-highlight_from (is_word c) left t h.1)
strip_tags-highlight_from after_word zero (c ∷ t) h =
    let token : Token = token_at after_word (c ∷ t) in
    elim (Bool-cases (token.size == 0)) [
      | inl e ↦
          rw (e, highlight_from)
            (strip_tags_plain c _ h.0
              ∙ ap (c ∷◌) (strip_tags-highlight_from (is_word c) zero t h.1))
      | inr e ↦
          rw (e, highlight_from)
            (strip_tags-open_span token.token_class _
              ∙ strip_tags_plain c _ h.0
              ∙ ap (c ∷◌) (
                  strip_tags-close_span (token.size - 1) _
                  ∙ strip_tags-highlight_from (is_word c) (token.size - 1) t h.1))
    ]

-- What the three replacements make of one character.
abbrev json_char : ℕ → Text
json_char c = if c == b'"' then c ∷ [] else if c == b'\'' then c ∷ [] else escape_char c

escape_json-cons : (c : ℕ) (t : Text) → escape_json (c ∷ t) ≡ json_char c ++ escape_json t
unfolding escape_json
escape_json-cons c t = ground arith

json_char-HasNoTag : (c : ℕ) → All HasNoTag (json_char c)
json_char-HasNoTag c = ground arith

escape_json-HasNoTag : (t : Text) → All HasNoTag (escape_json t)
escape_json-HasNoTag [] = unfold escape_json in tt
escape_json-HasNoTag (c ∷ t) =
    rw (escape_json-cons c t)
      (All-append HasNoTag (json_char c) _ (json_char-HasNoTag c) (escape_json-HasNoTag t))

decode-json_char :
    (f c : ℕ) (rest : Text) → decode (suc f) (json_char c ++ rest) ≡ c ∷ decode f rest
decode-json_char f c rest = ground (arith, decode-escape_char f c rest, decode_plain f c rest)

decode-escape_json : (f : ℕ) (t : Text) → length t < f → decode f (escape_json t) ≡ t
decode-escape_json zero t h = absurd (omega arith)
decode-escape_json (suc f) [] h = unfold escape_json in decode_nil f
decode-escape_json (suc f) (c ∷ t) h =
    rw (escape_json-cons c t)
      (decode-json_char f c (escape_json t) ∙ ap (c ∷◌) (decode-escape_json f t (omega arith)))

-- Whatever the JSON, the text that the page shows and copies for the highlighted JSON is the JSON
-- itself: the tags change no character, and the escaped ones come back.
pub text_content-highlight_json :
    (f : ℕ) (json : Text) → length json < f → text_content f (highlight_json json) ≡ json
unfolding text_content highlight_json
text_content-highlight_json f json h =
    ap (decode f) (strip_tags-highlight_from false 0 (escape_json json) (escape_json-HasNoTag json))
    ∙ decode-escape_json f json h
