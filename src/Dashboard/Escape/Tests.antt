-- ===== src/Dashboard/Escape/Tests.antt =====
-- Escaped texts.
use strom.Prelude.{◌≡◌, refl, Text, codes, All, [], ◌∷◌, arith}
use strom.Dashboard.Escape.{escape_html}
use strom.Dashboard.Escape.Laws.{decode, IsInert, escape_html-IsInert, decode-escape_html}

abbrev sample : Text
sample = 60 ∷ 38 ∷ 39 ∷ []

sample-escaped : escape_html sample ≡ codes "&lt;&amp;&#39;"
unfolding escape_html codes
sample-escaped = refl

escape_html-IsInert_test : All IsInert (escape_html sample)
escape_html-IsInert_test = escape_html-IsInert sample

decode-escape_html_example : decode 4 (escape_html sample) ≡ sample
decode-escape_html_example = decode-escape_html 4 sample (omega arith)
