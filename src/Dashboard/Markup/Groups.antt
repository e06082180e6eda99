-- ===== src/Dashboard/Markup/Groups.antt =====
-- The HTML of renderVariableGroups and of the tags of a UPS in agent/internal/api/web/app.js.
use strom.Prelude.{Text, codes, List, [], ◌∷◌, ◌++◌}
use strom.Dashboard.Variables.{
  Group, battery, input, output, ups, device, driver, environment, other, Entry, Section,
}
use strom.Dashboard.Markup.{Part, markup, value, rows}

abbrev group_text : Group → Text
group_text battery = codes "Battery"
group_text input = codes "Input"
group_text output = codes "Output"
group_text ups = codes "UPS"
group_text device = codes "Device"
group_text driver = codes "Driver"
group_text environment = codes "Environment"
group_text other = codes "Other"

abbrev pub entry_parts : Entry → List Part
entry_parts entry =
    markup "<div><dt>"
    ∷ value entry.name
    ∷ markup "</dt><dd>"
    ∷ value entry.value
    ∷ markup "</dd></div>"
    ∷ []

abbrev pub group_head : Section → List Part
group_head group =
    markup "\n    <div class=\"variable-group\">\n      <h4>"
    ∷ value (group_text group.group)
    ∷ markup "</h4>\n      <dl>"
    ∷ []

abbrev pub group_parts : Section → List Part
group_parts group =
    group_head group ++ (rows entry_parts group.entries ++ markup "</dl>\n    </div>\n  " ∷ [])

-- The sections are those of `render_variable_groups`.
abbrev pub groups_parts : List Section → List Part
groups_parts [] =
    markup "<div class=\"empty-state\"><p>No NUT variables are currently available.</p></div>" ∷ []
groups_parts (group ∷ rest) =
    markup "<div class=\"variable-groups\">"
    ∷ (rows group_parts (group ∷ rest) ++ markup "</div>" ∷ [])

abbrev pub tag_parts : Text → List Part
tag_parts tag = markup "<span class=\"tag\">" ∷ value tag ∷ markup "</span>" ∷ []

abbrev pub tags_parts : List Text → List Part
tags_parts [] = []
tags_parts (tag ∷ rest) =
    markup "<div class=\"ups-detail-context\">"
    ∷ (rows tag_parts (tag ∷ rest) ++ markup "</div>" ∷ [])
