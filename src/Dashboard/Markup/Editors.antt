-- ===== src/Dashboard/Markup/Editors.antt =====
-- renderWritable and renderVariableInput of agent/internal/api/web/app.js.
use strom.Prelude.{
  String, Text, codes, text_eq, Bool, true, false, Option, none, some, List, [], ◌∷◌, ◌++◌,
}
use strom.Dashboard.Markup.{Part, markup, value, render_parts, rows}
use strom.Dashboard.Markup.Controls.{Presentation, control_presentation, first_text}

pub data Editor : Type 0 where
  select number text : Editor

pub record WritableInfo : Type 0 where
  pub name : Text
  pub description : Text
  pub editor : Editor
  pub current_value : Text
  pub options : List Text
  pub least : Option Text
  pub greatest : Option Text

abbrev editor_text : Editor → Text
editor_text select = codes "select"
editor_text number = codes "number"
editor_text text = codes "text"

abbrev pub selected_mark : Bool → List Part
selected_mark true = markup "selected" ∷ []
selected_mark false = []

-- An option, and whether it is the current value.
abbrev pub option_parts : Bool → Text → List Part
option_parts selected option =
    markup "<option value=\""
    ∷ value option
    ∷ markup "\" "
    ∷ (selected_mark selected ++ (markup ">" ∷ value option ∷ markup "</option>" ∷ []))

abbrev pub bound_parts : String → Option Text → List Part
bound_parts attribute none = []
bound_parts attribute (some bound) = markup attribute ∷ value bound ∷ markup "\"" ∷ []

abbrev pub input_type : Editor → List Part
input_type number = markup " value\" type=\"number\" value=\"" ∷ []
input_type _ = markup " value\" type=\"text\" value=\"" ∷ []

abbrev pub input_parts : WritableInfo → List Part
input_parts variable =
    markup "\n    <input data-variable-input=\""
    ∷ value variable.name
    ∷ markup "\" data-variable-original=\""
    ∷ value variable.current_value
    ∷ markup "\" aria-label=\""
    ∷ value variable.name
    ∷ (input_type variable.editor
        ++ (value variable.current_value
            ∷ markup "\""
            ∷ (bound_parts " min=\"" variable.least
                ++ (bound_parts " max=\"" variable.greatest ++ markup ">\n  " ∷ []))))

abbrev pub select_head : WritableInfo → List Part
select_head variable =
    markup "\n      <select data-variable-input=\""
    ∷ value variable.name
    ∷ markup "\" data-variable-original=\""
    ∷ value variable.current_value
    ∷ markup "\" aria-label=\""
    ∷ value variable.name
    ∷ markup " value\">\n        "
    ∷ []

abbrev pub option_row : Text → Text → List Part
option_row current option = option_parts (text_eq option current) option

abbrev pub select_parts : WritableInfo → List Part
select_parts variable =
    select_head variable
    ++ (rows (option_row variable.current_value) variable.options
        ++ markup "\n      </select>\n    " ∷ [])

-- `renderVariableInput`
abbrev pub variable_input : Editor → WritableInfo → List Part
variable_input select variable = select_parts variable
variable_input _ variable = input_parts variable

abbrev pub writable_head : Presentation → WritableInfo → List Part
writable_head presentation variable =
    markup "\n      <li class=\"action-row\" data-variable-row=\""
    ∷ value variable.name
    ∷ markup
        "\">\n        <div class=\"action-row-text\">\n          <div class=\"action-row-title-line\">\n            <span class=\"action-row-title\">"
    ∷ value presentation.label
    ∷ markup "</span>\n\t\t\t<span class=\"action-row-identifier\">"
    ∷ value variable.name
    ∷ markup "</span>\n            <span class=\"tag\">"
    ∷ value (editor_text variable.editor)
    ∷ markup
        "</span>\n            <span class=\"tag tag--warn action-row-dirty-tag\" hidden>Modified</span>\n          </div>\n          <p class=\"action-row-desc\">"
    ∷ value (first_text presentation.description variable.description)
    ∷ markup "</p>\n        </div>\n        <div class=\"action-row-controls\">\n          "
    ∷ []

abbrev pub writable_row : Presentation → WritableInfo → List Part
writable_row presentation variable =
    writable_head presentation variable
    ++ (variable_input variable.editor variable
        ++ markup "\n        </div>\n      </li>\n    " ∷ [])

abbrev pub presented_variable : WritableInfo → List Part
presented_variable variable = writable_row (control_presentation variable.name) variable

abbrev pub settings_end : List Part
settings_end =
    markup
      "</ul>\n    <div class=\"settings-apply-bar\">\n      <span id=\"settings-apply-hint\" class=\"helper\">No changes to apply.</span>\n      <button id=\"settings-apply\" class=\"button button--primary\" type=\"button\" disabled>Apply changes</button>\n    </div>\n  "
    ∷ []

abbrev pub writable_parts : List WritableInfo → List Part
writable_parts [] =
    markup
      "\n      <div class=\"empty-state\">\n        <p>This UPS does not report any writable NUT variables.</p>\n      </div>\n    "
    ∷ []
writable_parts (variable ∷ rest) =
    markup "\n    <ul class=\"action-list\">"
    ∷ (rows presented_variable (variable ∷ rest) ++ settings_end)

unfoldable pub render_writable : List WritableInfo → Text
unfolding render_parts rows control_presentation
render_writable writable = render_parts (writable_parts writable)
