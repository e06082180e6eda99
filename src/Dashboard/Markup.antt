-- ===== src/Dashboard/Markup.antt =====
-- The HTML that agent/internal/api/web/app.js puts on the page for the commands and the settings of a
-- UPS and for its readings. A template of the source is a list of parts: its markup, and the values
-- that it escapes.
pub mod Controls
pub mod Editors
pub mod Skeleton
pub mod Frames
pub mod Commands
pub mod Writables
pub mod Groups
pub mod Pages
pub mod Sections
pub mod Safety
mod Tests
use strom.Prelude.{String, Text, codes, List, [], ◌∷◌, ◌++◌}
use strom.Dashboard.Escape.{escape_html}

pub data Part : Type 0 where
  markup : String → Part
  value : Text → Part

-- The text of a template: `${escapeHTML(v)}` and `${escapeAttribute(v)}` are the same.
unfoldable pub render_parts : List Part → Text
unfolding codes escape_html
render_parts [] = []
render_parts (markup s ∷ parts) = codes s ++ render_parts parts
render_parts (value v ∷ parts) = escape_html v ++ render_parts parts

-- `map(…).join("")`
unfoldable pub rows : {A : Type 0} → (A → List Part) → List A → List Part
rows row [] = []
rows row (a ∷ rest) = row a ++ rows row rest

abbrev pub stat_item_parts : Text → Text → List Part
stat_item_parts label text =
    markup "<div class=\"stat-item\"><span class=\"stat-label\">"
    ∷ value label
    ∷ markup "</span><span class=\"stat-value\">"
    ∷ value text
    ∷ markup "</span></div>"
    ∷ []

unfoldable pub stat_item : Text → Text → Text
unfolding render_parts
stat_item label text = render_parts (stat_item_parts label text)

-- The key is one of the six that `renderDetail` writes, so that it needs no escape.
abbrev pub detail_metric_parts : Text → Text → String → List Part
detail_metric_parts label text key =
    markup "<article class=\"metric-card metric-card--compact\" data-metric=\""
    ∷ markup key
    ∷ markup "\"><span class=\"eyebrow\">"
    ∷ value label
    ∷ markup "</span><div class=\"metric-value metric-value--compact\">"
    ∷ value text
    ∷ markup "</div></article>"
    ∷ []

unfoldable pub detail_metric : Text → Text → String → Text
unfolding render_parts
detail_metric label text key = render_parts (detail_metric_parts label text key)

-- `message` is `[]` for the default one.
abbrev or_default : Text → Text
or_default [] =
    codes "Pick a UPS card to inspect full telemetry, raw variables, and supported commands."
or_default (c ∷ t) = c ∷ t

abbrev pub empty_detail_parts : Text → List Part
empty_detail_parts message =
    markup "\n    <div class=\"empty-state\">\n      <h3>Select a UPS</h3>\n      <p>"
    ∷ value (or_default message)
    ∷ markup "</p>\n    </div>\n  "
    ∷ []

unfoldable pub empty_detail_html : Text → Text
unfolding render_parts codes
empty_detail_html message = render_parts (empty_detail_parts message)
