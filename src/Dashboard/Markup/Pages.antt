-- ===== src/Dashboard/Markup/Pages.antt =====
-- The HTML of renderUPSGrid and renderDetail of agent/internal/api/web/app.js. The readings stand here
-- as their texts, which Dashboard/Format.antt makes.
use strom.Prelude.{String, Text, codes, text_eq, Bool, List, [], ◌∷◌, ◌++◌, if◌then◌else◌}
use strom.Dashboard.Status.{Chip, good, warn, danger, status_class}
use strom.Dashboard.Variables.{Section}
use strom.Dashboard.Markup.{
  Part, markup, value, render_parts, rows, stat_item_parts, detail_metric_parts,
}
use strom.Dashboard.Markup.Controls.{CommandInfo, commands_parts, control_presentation}
use strom.Dashboard.Markup.Editors.{WritableInfo, writable_parts}
use strom.Dashboard.Markup.Groups.{groups_parts, tags_parts}

abbrev chip_class : Chip → String
chip_class good = ""
chip_class warn = "chip--warn"
chip_class danger = "chip--danger"

abbrev accent_class : Chip → String
accent_class good = "ups-card--good"
accent_class warn = "ups-card--warn"
accent_class danger = "ups-card--danger"

abbrev name_or : Text → Text → Text
name_or [] name = name
name_or (c ∷ t) name = c ∷ t

-- A UPS of the list, with the texts of its readings.
pub record UpsInfo : Type 0 where
  pub name : Text
  pub display_name : Text
  pub driver : Text
  pub status : Text
  pub charge : Text
  pub load : Text
  pub runtime : Text
  pub output : Text

abbrev pub card_parts : Chip → Bool → UpsInfo → List Part
card_parts chip selected u =
    markup "\n      <article class=\"ups-card "
    ∷ markup (accent_class chip)
    ∷ markup " "
    ∷ markup (if selected then "is-selected" else "")
    ∷ markup "\" data-ups-name=\""
    ∷ value u.name
    ∷ markup "\" tabindex=\"0\">\n        <header>\n          <div>\n            <h3>"
    ∷ value (name_or u.display_name u.name)
    ∷ markup "</h3>\n            <p>"
    ∷ value u.driver
    ∷ markup "</p>\n          </div>\n          <span class=\"chip "
    ∷ markup (chip_class chip)
    ∷ markup "\">"
    ∷ value u.status
    ∷ markup "</span>\n        </header>\n        <div class=\"stat-grid\">\n          "
    ∷ (stat_item_parts (codes "Charge") u.charge
        ++ (markup "\n          "
            ∷ (stat_item_parts (codes "Load") u.load
                ++ (markup "\n          "
                    ∷ (stat_item_parts (codes "Runtime") u.runtime
                        ++ (markup "\n          "
                            ∷ (stat_item_parts (codes "Output") u.output
                                ++ markup "\n        </div>\n      </article>\n    " ∷ [])))))))

-- `selected` is the name of the selected UPS, `[]` if there is none.
abbrev pub card_row : Text → UpsInfo → List Part
card_row selected u = card_parts (status_class u.status) (text_eq u.name selected) u

abbrev pub grid_parts : Text → List UpsInfo → List Part
grid_parts selected [] =
    markup
      "\n      <div class=\"empty-state\">\n        <h3>No UPS devices discovered</h3>\n        <p>Plug in a supported UPS and the agent will populate telemetry and available controls here.</p>\n      </div>\n    "
    ∷ []
grid_parts selected (u ∷ rest) = rows (card_row selected) (u ∷ rest)

unfoldable pub ups_grid_html : Text → List UpsInfo → Text
unfolding render_parts rows status_class text_eq
ups_grid_html selected upses = render_parts (grid_parts selected upses)

-- A loaded UPS, with the texts of its readings.
pub record DetailInfo : Type 0 where
  pub name : Text
  pub display_name : Text
  pub driver : Text
  pub status : Text
  pub tags : List Text
  pub charge : Text
  pub load : Text
  pub runtime : Text
  pub input_voltage : Text
  pub output_voltage : Text
  pub battery_voltage : Text
  pub sections : List Section
  pub commands : List CommandInfo
  pub writable : List WritableInfo

abbrev pub detail_head : Chip → DetailInfo → List Part
detail_head chip d =
    markup
      "\n    <div class=\"detail-heading\">\n      <div class=\"detail-title-row\">\n        <h2 class=\"detail-title\">"
    ∷ value (name_or d.display_name d.name)
    ∷ markup "</h2>\n    \t\t<span class=\"detail-operational-name\">"
    ∷ value d.name
    ∷ markup "</span>\n        <span class=\"detail-meta-driver\">"
    ∷ value d.driver
    ∷ markup
        "</span>\n      </div>\n      <div class=\"detail-heading-actions\">\n        <span class=\"chip "
    ∷ markup (chip_class chip)
    ∷ markup "\">"
    ∷ value d.status
    ∷ markup
        "</span>\n\t\t<button type=\"button\" class=\"button button--ghost button--compact\" id=\"edit-ups-metadata\">Edit details</button>\n        <button type=\"button\" class=\"button button--ghost button--compact\" id=\"view-raw-json\">Raw JSON</button>\n      </div>\n    </div>\n  \t"
    ∷ []

abbrev pub detail_metrics : DetailInfo → List Part
detail_metrics d =
    markup "\n\n    <div class=\"detail-metrics-grid\">\n      "
    ∷ (detail_metric_parts (codes "Battery charge") d.charge "battery-charge"
        ++ (markup "\n      "
            ∷ (detail_metric_parts (codes "Load") d.load "load"
                ++ (markup "\n      "
                    ∷ (detail_metric_parts (codes "Runtime") d.runtime "runtime"
                        ++ (markup "\n      "
                            ∷ (detail_metric_parts (codes "Input voltage") d.input_voltage
                                  "input-voltage"
                                ++ (markup "\n      "
                                    ∷ (detail_metric_parts (codes "Output voltage") d.output_voltage
                                          "output-voltage"
                                        ++ (markup "\n      "
                                            ∷ (detail_metric_parts (codes "Battery voltage")
                                                  d.battery_voltage "battery-voltage"
                                                ++ markup "\n    </div>\n\n    " ∷ [])))))))))))

-- The heading of a section, and what ends it.
abbrev pub section_head : String → String → List Part
section_head title helper =
    markup "<section>\n      <div class=\"section-head\">\n        <h3>"
    ∷ markup title
    ∷ markup "</h3>\n        <span class=\"helper\">"
    ∷ markup helper
    ∷ markup "</span>\n      </div>\n      "
    ∷ []

abbrev pub details_head : List Part
details_head = section_head "UPS details" "All reported NUT variables, grouped for scanning."

abbrev pub commands_head : List Part
commands_head =
    markup "\n    </section>\n\n    "
    ∷ section_head "Commands" "All NUT instant commands the node can execute are exposed here."

abbrev pub settings_head : List Part
settings_head =
    markup "\n    </section>\n\n    "
    ∷ section_head "Settings" "Any writable NUT variables detected on this UPS are editable here."

abbrev pub detail_parts : DetailInfo → List Part
detail_parts d =
    detail_head (status_class d.status) d
    ++ (tags_parts d.tags
        ++ (detail_metrics d
            ++ (details_head
                ++ (groups_parts d.sections
                    ++ (commands_head
                        ++ (commands_parts d.commands
                            ++ (settings_head
                                ++ (writable_parts d.writable
                                    ++ markup "\n    </section>\n  " ∷ []))))))))

unfoldable pub detail_html : DetailInfo → Text
unfolding render_parts rows status_class control_presentation text_eq
detail_html d = render_parts (detail_parts d)
