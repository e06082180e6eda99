-- ===== src/Dashboard/Escape.antt =====
-- The escaping functions of agent/internal/api/web/app.js, on texts as lists of code points.
pub mod Laws
mod Tests
use strom.Prelude.{ℕ, String, Text, codes, Bool, List, [], ◌∷◌, ◌++◌, ◌==◌, if◌then◌else◌}

-- `replaceAll` with a search string of one character.
unfoldable pub replace_all : ℕ → Text → Text → Text
replace_all c r [] = []
replace_all c r (x ∷ t) = if x == c then r ++ replace_all c r t else x ∷ replace_all c r t

unfoldable pub escape_html : Text → Text
unfolding replace_all codes
escape_html value = replace_all b'\'' (codes "&#39;") (
    replace_all b'"' (codes "&quot;") (
      replace_all b'>' (codes "&gt;")
        (replace_all b'<' (codes "&lt;") (replace_all b'&' (codes "&amp;") value))))

unfoldable pub escape_attribute : Text → Text
unfolding escape_html
escape_attribute value = escape_html value

-- `cssEscape`, with the browser's `CSS.escape` if it has one.
unfoldable pub css_escape : (css : Bool) → (Text → Text) → Text → Text
unfolding replace_all codes
css_escape css escape value = if css then escape value else replace_all b'"' (codes "\\\"") value
