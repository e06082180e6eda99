-- ===== src/Controller/Api/Uri.antt =====
-- `encodeURIComponent` and the encoding of `URLSearchParams`, which controller/web/src/api.ts builds
-- addresses with, as the language defines them. A lone surrogate, which throws, is left out.
use strom.Prelude.{
  ℕ, ◌+◌, ◌/◌, ◌%◌, Text, Bool, ◌||◌, ◌&&◌, List, [], ◌∷◌, ◌++◌, leb, ltb, ◌==◌, if◌then◌else◌,
}

unfoldable pub utf8 : ℕ → List ℕ
utf8 c =
    if ltb c 128
    then c ∷ []
    else if ltb c 2048
    then (192 + c / 64) ∷ (128 + c % 64) ∷ []
    else if ltb c 65536
    then (224 + c / 4096) ∷ (128 + c / 64 % 64) ∷ (128 + c % 64) ∷ []
    else (240 + c / 262144) ∷ (128 + c / 4096 % 64) ∷ (128 + c / 64 % 64) ∷ (128 + c % 64) ∷ []

unfoldable pub utf8_all : Text → List ℕ
unfolding utf8
utf8_all [] = []
utf8_all (c ∷ t) = utf8 c ++ utf8_all t

abbrev pub hex_digit : ℕ → ℕ
hex_digit d = if ltb d 10 then 48 + d else 55 + d

abbrev is_alphanumeric : ℕ → Bool
is_alphanumeric c =
    (leb b'0' c && leb c b'9') || (leb b'A' c && leb c b'Z') || (leb b'a' c && leb c b'z')

-- Letters, digits and `-_.!~*'()`.
unfoldable pub is_unreserved : ℕ → Bool
is_unreserved c =
    is_alphanumeric c
    || c == 45
    || c == 95
    || c == 46
    || c == 33
    || c == 126
    || c == 42
    || c == 39
    || c == 40
    || c == 41

unfoldable pub percent_byte : ℕ → Text
unfolding is_unreserved
percent_byte b =
    if is_unreserved b then b ∷ [] else 37 ∷ hex_digit (b / 16) ∷ hex_digit (b % 16) ∷ []

unfoldable pub percent_bytes : List ℕ → Text
unfolding percent_byte
percent_bytes [] = []
percent_bytes (b ∷ bytes) = percent_byte b ++ percent_bytes bytes

unfoldable pub encode_uri_component : Text → Text
unfolding utf8_all percent_bytes
encode_uri_component t = percent_bytes (utf8_all t)

-- The form encoding writes a space as `+` and keeps letters, digits and `*-._`.
abbrev form_byte : ℕ → Text
form_byte b =
    if b == 32
    then 43 ∷ []
    else if is_alphanumeric b || b == 42 || b == 45 || b == 46 || b == 95
    then b ∷ []
    else 37 ∷ hex_digit (b / 16) ∷ hex_digit (b % 16) ∷ []

form_bytes : List ℕ → Text
form_bytes [] = []
form_bytes (b ∷ bytes) = form_byte b ++ form_bytes bytes

unfoldable pub form_encode : Text → Text
unfolding utf8_all form_bytes
form_encode t = form_bytes (utf8_all t)
