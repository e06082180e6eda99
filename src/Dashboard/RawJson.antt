-- ===== src/Dashboard/RawJson.antt =====
-- The raw JSON dialog of agent/internal/api/web/app.js: the highlighter and the dialog's operations.
-- `V` is the type of a UPS's variables, and `JSON.stringify` a parameter. The regular expression of
-- the highlighter is written out: its alternatives in their order, each as the number of characters
-- that it takes, with 0 where it does not match. `\s` is that of ASCII.
pub mod Laws
mod Tests
use strom.Prelude.{
  ℕ, zero, suc, ◌+◌, ◌-◌, String, Text, codes, is_prefix, Bool, true, false, not, ◌&&◌, ◌||◌,
  Option, none, some, List, [], ◌∷◌, ◌++◌, leb, ltb, ◌==◌, if◌then◌else◌,
}
use strom.Dashboard.Escape.{replace_all}
use strom.Dashboard.Store.{Detail, Store, show_toast}

abbrev pub skip : ℕ → Text → Text
skip zero t = t
skip (suc n) [] = []
skip (suc n) (c ∷ t) = skip n t

abbrev is_digit : ℕ → Bool
is_digit c = leb b'0' c && leb c b'9'

abbrev is_letter : ℕ → Bool
is_letter c = (leb b'a' c && leb c b'z') || (leb b'A' c && leb c b'Z')

-- `\w`
abbrev pub is_word : ℕ → Bool
is_word c = is_letter c || (is_digit c || c == b'_')

abbrev is_hex : ℕ → Bool
is_hex c = is_digit c || ((leb b'a' c && leb c b'f') || (leb b'A' c && leb c b'F'))

abbrev starts_word : Text → Bool
starts_word [] = false
starts_word (c ∷ t) = is_word c

abbrev four_hex : ℕ → Text → Bool
four_hex zero t = true
four_hex (suc n) [] = false
four_hex (suc n) (c ∷ t) = is_hex c && four_hex n t

abbrev add_to : ℕ → Option ℕ → Option ℕ
add_to k none = none
add_to k (some n) = some (k + n)

-- The rest of a string, its closing quote included. The digits of `\u` are plain characters too.
unfoldable pub string_rest : Text → Option ℕ
string_rest [] = none
string_rest (c ∷ []) = if c == b'"' then some 1 else none
string_rest (c ∷ x ∷ t) =
    let plain = add_to 1 (string_rest (x ∷ t)) in
    let escaped = add_to 2 (string_rest t) in
    if c == b'"'
    then some 1
    else if not (c == b'\\')
    then plain
    else if x == b'u' && not (four_hex 4 t)
    then none
    else escaped

abbrev is_json_space : ℕ → Bool
is_json_space c = c == 32 || (leb 9 c && leb c 13)

-- `(\s*:)?`
abbrev key_suffix_from : ℕ → Text → ℕ
key_suffix_from spaces [] = 0
key_suffix_from spaces (c ∷ t) =
    let later = key_suffix_from (spaces + 1) t in
    if c == b':' then spaces + 1 else if is_json_space c then later else 0

unfoldable pub digits_length : Text → ℕ
digits_length [] = 0
digits_length (c ∷ t) = let more = digits_length t in if is_digit c then 1 + more else 0

-- A part of a number that begins with `mark` characters and wants a digit after them.
abbrev with_digits : ℕ → ℕ → ℕ
with_digits mark digits = if digits == 0 then 0 else mark + digits

abbrev fraction_length : Text → ℕ
fraction_length [] = 0
fraction_length (c ∷ t) = if c == b'.' then with_digits 1 (digits_length t) else 0

abbrev signed_digits : Text → ℕ
signed_digits [] = 0
signed_digits (c ∷ t) =
    if c == b'+' || c == b'-' then with_digits 1 (digits_length t) else digits_length (c ∷ t)

abbrev exponent_length : Text → ℕ
exponent_length [] = 0
exponent_length (c ∷ t) = if c == b'e' || c == b'E' then with_digits 1 (signed_digits t) else 0

abbrev tail_length : Text → ℕ
tail_length t = fraction_length t + exponent_length (skip (fraction_length t) t)

abbrev unsigned_length : Text → ℕ
unsigned_length t =
    let whole = digits_length t in if whole == 0 then 0 else whole + tail_length (skip whole t)

unfoldable pub number_length : Text → ℕ
unfolding digits_length
number_length [] = 0
number_length (c ∷ t) =
    if c == b'-' then with_digits 1 (unsigned_length t) else unsigned_length (c ∷ t)

-- A word between word boundaries; `after_word` says that a word character stands before.
abbrev literal_length : Bool → Text → Text → ℕ → ℕ
literal_length after_word word t n =
    if not after_word && (is_prefix word t && not (starts_word (skip n t))) then n else 0

pub data TokenClass : Type 0 where
  number key string boolean null : TokenClass

pub record Token : Type 0 where
  pub size : ℕ
  pub token_class : TokenClass

abbrev string_token : Text → Option ℕ → Token
string_token t none = record { size = 0; token_class = string }
string_token t (some n) =
    let suffix = key_suffix_from 0 (skip n t) in
    record { size = 1 + n + suffix; token_class = if suffix == 0 then string else key }

abbrev word_token : Bool → Text → Token
word_token after_word t =
    if ltb 0 (literal_length after_word (codes "true") t 4)
    then record { size = 4; token_class = boolean }
    else if ltb 0 (literal_length after_word (codes "false") t 5)
    then record { size = 5; token_class = boolean }
    else if ltb 0 (literal_length after_word (codes "null") t 4)
    then record { size = 4; token_class = null }
    else record { size = number_length t; token_class = number }

-- The match that begins here, of size 0 if there is none.
unfoldable pub token_at : Bool → Text → Token
unfolding string_rest number_length is_prefix codes
token_at after_word [] = record { size = 0; token_class = number }
token_at after_word (c ∷ t) =
    if c == b'"' then string_token t (string_rest t) else word_token after_word (c ∷ t)

abbrev pub class_name : TokenClass → Text
class_name number = codes "json-token-number"
class_name key = codes "json-token-key"
class_name string = codes "json-token-string"
class_name boolean = codes "json-token-boolean"
class_name null = codes "json-token-null"

unfoldable pub open_span : TokenClass → Text
unfolding codes
open_span token_class = codes "<span class=\"" ++ (class_name token_class ++ codes "\">")

unfoldable pub close_span : ℕ → Text → Text
unfolding codes
close_span left rest = if left == 0 then codes "</span>" ++ rest else rest

-- `json.replace(tokenPattern, …)`; `left` characters of a token are still to come.
unfoldable pub highlight_from : Bool → ℕ → Text → Text
unfolding token_at open_span close_span
highlight_from after_word left [] = []
highlight_from after_word (suc left) (c ∷ t) =
    c ∷ close_span left (highlight_from (is_word c) left t)
highlight_from after_word zero (c ∷ t) =
    let token = token_at after_word (c ∷ t) in
    let plain = c ∷ highlight_from (is_word c) zero t in
    let marked =
      open_span token.token_class
      ++ (c ∷ close_span (token.size - 1) (highlight_from (is_word c) (token.size - 1) t)) in
    if token.size == 0 then plain else marked

unfoldable pub escape_json : Text → Text
unfolding replace_all codes
escape_json json =
    replace_all b'>' (codes "&gt;")
      (replace_all b'<' (codes "&lt;") (replace_all b'&' (codes "&amp;") json))

unfoldable pub highlight_json : Text → Text
unfolding escape_json highlight_from
highlight_json json = highlight_from false 0 (escape_json json)

-- `code` is the HTML in the dialog.
pub record RawJsonModal (R : Type 0) : Type 0 where
  pub store : Store R
  pub modal_open : Bool
  pub name_badge : String
  pub code : Text

module _ {R V : Type 0} where
  unfoldable pub open_raw_json_modal : (V → Text) → String → V → RawJsonModal R → RawJsonModal R
  unfolding highlight_json
  open_raw_json_modal stringify name variables s = record s {
    name_badge = name;
    code = highlight_json (stringify variables);
    modal_open = true;
  }

module _ {R : Type 0} where
  unfoldable pub close_raw_json_modal : RawJsonModal R → RawJsonModal R
  close_raw_json_modal s = record s { modal_open = false }

  -- The end of `copyRawJSON`, whichever way the text was copied.
  unfoldable pub copy_end : RawJsonModal R → RawJsonModal R
  unfolding codes
  copy_end s = record s { store = show_toast (codes "Raw JSON copied.") false s.store }
