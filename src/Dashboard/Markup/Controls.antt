-- ===== src/Dashboard/Markup/Controls.antt =====
-- commonControlPresentation, controlPresentation and renderCommands of agent/internal/api/web/app.js.
use strom.Prelude.{
  String, Text, codes, text_eq, Bool, true, false, List, [], ◌∷◌, ◌++◌, if◌then◌else◌,
}
use strom.Dashboard.Variables.{humanize_nut_identifier}
use strom.Dashboard.Markup.{Part, markup, value, render_parts, rows}

pub record Presentation : Type 0 where
  pub label : Text
  pub description : Text

pub record Common : Type 0 where
  pub name : Text
  pub presentation : Presentation

abbrev common : String → String → String → Common
common name label description = record {
  name = codes name;
  presentation = record { label = codes label; description = codes description };
}

-- `commonControlPresentation`. (No command or variable of NUT is named as a member of
-- `Object.prototype`.)
unfoldable pub common_control_presentation : List Common
unfolding codes
common_control_presentation =
    common "beeper.disable" "Disable audible alarm" "Turn off the UPS alarm."
    ∷ common "beeper.enable" "Enable audible alarm" "Turn on the UPS alarm."
    ∷ common "beeper.mute" "Mute audible alarm" "Silence the current UPS alarm."
    ∷ common "beeper.toggle" "Toggle audible alarm" "Turn the UPS alarm on or off."
    ∷ common "load.off" "Turn load off" "Immediately turn off power to connected equipment."
    ∷ common "load.on" "Turn load on" "Turn on power to connected equipment."
    ∷ common "shutdown.return" "Shut down until utility returns"
        "Turn off the load and restore it when utility power returns."
    ∷ common "shutdown.stayoff" "Shut down and stay off"
        "Turn off the load until manually restarted."
    ∷ common "test.battery.start.deep" "Run deep battery test"
        "Start an extended battery self-test."
    ∷ common "test.battery.start.quick" "Run quick battery test" "Start a short battery self-test."
    ∷ common "ups.delay.reboot" "Restart delay" "Seconds the UPS waits before restarting the load."
    ∷ common "ups.delay.shutdown" "Shutdown delay"
        "Seconds the UPS waits before shutting down the load."
    ∷ common "ups.delay.start" "Startup delay" "Seconds the UPS waits before restoring the load."
    ∷ []

unfoldable pub presentation_in : Text → List Common → Presentation
unfolding text_eq humanize_nut_identifier
presentation_in name [] = record { label = humanize_nut_identifier name; description = [] }
presentation_in name (c ∷ rest) =
    if text_eq c.name name then c.presentation else presentation_in name rest

unfoldable pub control_presentation : Text → Presentation
unfolding presentation_in common_control_presentation
control_presentation name = presentation_in name common_control_presentation

-- `a || b || "No description reported by NUT."`
abbrev pub first_text : Text → Text → Text
first_text [] [] = codes "No description reported by NUT."
first_text [] (d ∷ description) = d ∷ description
first_text (c ∷ own) description = c ∷ own

pub record CommandInfo : Type 0 where
  pub name : Text
  pub description : Text
  pub destructive : Bool

abbrev command_head : Bool → List Part
command_head true = markup "\n    <li class=\"action-row action-row--destructive\">" ∷ []
command_head false = markup "\n    <li class=\"action-row \">" ∷ []

abbrev pub destructive_tag : Bool → List Part
destructive_tag true = markup "<span class=\"tag tag--danger\">Destructive</span>" ∷ []
destructive_tag false = []

abbrev button_head : Bool → List Part
button_head true =
    markup "<button class=\"button button--compact button--danger\" data-command=\"" ∷ []
button_head false =
    markup "<button class=\"button button--compact button--primary\" data-command=\"" ∷ []

abbrev button_text : Bool → List Part
button_text true = markup "Confirm & run" ∷ []
button_text false = markup "Run" ∷ []

abbrev pub command_row : Presentation → CommandInfo → List Part
command_row presentation command =
    command_head command.destructive
    ++ (markup
          "\n      <div class=\"action-row-text\">\n        <div class=\"action-row-title-line\">\n          <span class=\"action-row-title\">"
        ∷ value presentation.label
        ∷ markup "</span>\n\t\t  <span class=\"action-row-identifier\">"
        ∷ value command.name
        ∷ markup "</span>\n          "
        ∷ (destructive_tag command.destructive
            ++ (markup "\n        </div>\n        <p class=\"action-row-desc\">"
                ∷ value (first_text presentation.description command.description)
                ∷ markup "</p>\n      </div>\n      <div class=\"action-row-controls\">\n        "
                ∷ (button_head command.destructive
                    ++ (value command.name
                        ∷ markup "\">\n          "
                        ∷ (button_text command.destructive
                            ++ markup "\n        </button>\n      </div>\n    </li>\n  " ∷ []))))))

abbrev pub presented_row : CommandInfo → List Part
presented_row command = command_row (control_presentation command.name) command

abbrev pub commands_parts : List CommandInfo → List Part
commands_parts [] =
    markup
      "\n      <div class=\"empty-state\">\n        <p>This UPS does not report any instant commands through NUT.</p>\n      </div>\n    "
    ∷ []
commands_parts (command ∷ rest) =
    markup "<ul class=\"action-list\">"
    ∷ (rows presented_row (command ∷ rest) ++ markup "</ul>" ∷ [])

unfoldable pub render_commands : List CommandInfo → Text
unfolding render_parts rows control_presentation
render_commands commands = render_parts (commands_parts commands)
