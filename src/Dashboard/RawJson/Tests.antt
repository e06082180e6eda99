-- ===== src/Dashboard/RawJson/Tests.antt =====
-- The variables of a UPS, highlighted.
use strom.Prelude.{◌≡◌, refl, codes, arith, false}
use strom.Dashboard.RawJson.{highlight_json, token_at, key, string, number, null}
use strom.Dashboard.RawJson.Laws.{text_content, text_content-highlight_json}

key_token : token_at false (codes "\"a\\\"b\" : 1") ≡ record { size = 8; token_class = key }
unfolding token_at codes
key_token = refl

string_token : token_at false (codes "\"\\u00e9\", ") ≡ record { size = 8; token_class = string }
unfolding token_at codes
string_token = refl

number_token : token_at false (codes "-12.5e+3,") ≡ record { size = 8; token_class = number }
unfolding token_at codes
number_token = refl

null_token : token_at false (codes "null}") ≡ record { size = 4; token_class = null }
unfolding token_at codes
null_token = refl

highlighted :
    highlight_json (codes "{\"a\": 1}")
    ≡ codes
        "{<span class=\"json-token-key\">\"a\":</span> <span class=\"json-token-number\">1</span>}"
unfolding highlight_json codes
highlighted = refl

text_content-highlight_json_example :
    text_content 100 (highlight_json (codes "{\"ups.id\": \"<a & b>\"}"))
    ≡ codes "{\"ups.id\": \"<a & b>\"}"
unfolding codes
text_content-highlight_json_example =
    text_content-highlight_json 100 (codes "{\"ups.id\": \"<a & b>\"}") (omega arith)
