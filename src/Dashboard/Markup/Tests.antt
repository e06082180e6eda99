-- ===== src/Dashboard/Markup/Tests.antt =====
-- The HTML of a page for a UPS that behaves and for one that does not.
use strom.Prelude.{
  ◌≡◌, refl, String, Text, codes, text_eq, Bool, true, false, none, some, List, [], ◌∷◌, map,
}
use strom.Dashboard.Markup.{stat_item, detail_metric, empty_detail_html}
use strom.Dashboard.Markup.Controls.{CommandInfo, render_commands, control_presentation}
use strom.Dashboard.Markup.Editors.{WritableInfo, number, render_writable}
use strom.Dashboard.Variables.{battery}
use strom.Dashboard.Status.{status_class}
use strom.Dashboard.Markup.Skeleton.{text, skeleton}
use strom.Dashboard.Markup.Pages.{UpsInfo, ups_grid_html, DetailInfo, detail_html}
use strom.Dashboard.Markup.Safety.{mark_of, outline, page-skeleton}

abbrev command : String → String → Bool → CommandInfo
command name description destructive = record {
  name = codes name;
  description = codes description;
  destructive = destructive;
}

abbrev honest : List CommandInfo
honest = command "load.off" "Off" true ∷ command "beeper.mute" "" false ∷ []

abbrev hostile : List CommandInfo
hostile =
    command "\"><script>" "<img onerror='x'>" true ∷ command "x" "</li></ul><b onclick=" false ∷ []

stat_item_markup :
    stat_item (codes "a<b") (codes "\"")
    ≡ codes
        "<div class=\"stat-item\"><span class=\"stat-label\">a&lt;b</span><span class=\"stat-value\">&quot;</span></div>"
unfolding stat_item codes
stat_item_markup = refl

detail_metric_markup :
    detail_metric (codes "Load") (codes "4%") "load"
    ≡ codes
        "<article class=\"metric-card metric-card--compact\" data-metric=\"load\"><span class=\"eyebrow\">Load</span><div class=\"metric-value metric-value--compact\">4%</div></article>"
unfolding detail_metric codes
detail_metric_markup = refl

empty_detail_default :
    empty_detail_html []
    ≡ empty_detail_html
        (codes "Pick a UPS card to inspect full telemetry, raw variables, and supported commands.")
unfolding empty_detail_html codes
empty_detail_default = refl

known_label : (control_presentation (codes "load.on")).label ≡ codes "Turn load on"
unfolding control_presentation codes
known_label = refl

other_label : (control_presentation (codes "driver.killpower")).label ≡ codes "Driver Killpower"
unfolding control_presentation codes
other_label = refl

no_commands-skeleton : skeleton text (render_commands []) ≡ codes "<div class=\"\"><p></p></div>"
unfolding skeleton render_commands codes
no_commands-skeleton = refl

abbrev delay : WritableInfo
delay = record {
  name = codes "ups.delay.start";
  description = [];
  editor = number;
  current_value = codes "3\">";
  options = [];
  least = some (codes "0");
  greatest = none;
}

writable-skeleton :
    skeleton text (render_writable (delay ∷ []))
    ≡ skeleton text (render_writable (record delay { current_value = codes "5" } ∷ []))
unfolding skeleton render_writable codes
writable-skeleton = refl

abbrev info : Text → Text → UpsInfo
info name driver = record {
  name = name;
  display_name = [];
  driver = driver;
  status = codes "OL";
  charge = codes "80%";
  load = codes "4%";
  runtime = codes "1h";
  output = codes "230 V";
}

abbrev trick : Text
trick = codes "'\"><img src=x onerror=\"alert(1)"

abbrev listed : List UpsInfo
listed = info (codes "rack") (codes "usbhid-ups") ∷ []

abbrev hostile_list : List UpsInfo
hostile_list = info trick trick ∷ []

abbrev detail_of : Text → List CommandInfo → WritableInfo → DetailInfo
detail_of name commands setting = record {
  name = name;
  display_name = [];
  driver = name;
  status = codes "OL";
  tags = name ∷ [];
  charge = codes "80%";
  load = codes "4%";
  runtime = codes "1h";
  input_voltage = codes "230 V";
  output_voltage = codes "230 V";
  battery_voltage = codes "13 V";
  sections = record { group = battery; entries = record { name = name; value = name } ∷ [] } ∷ [];
  commands = commands;
  writable = setting ∷ [];
}

abbrev detail : DetailInfo
detail = detail_of (codes "rack") honest delay

abbrev hostile_detail : DetailInfo
hostile_detail = detail_of trick hostile (record delay { name = trick; current_value = trick })

same_marks : map (mark_of trick) hostile_list ≡ map (mark_of (codes "rack")) listed
unfolding status_class text_eq codes
same_marks = refl

same_outline : outline hostile_detail ≡ outline detail
unfolding status_class codes
same_outline = refl

page-skeleton_example :
    (skeleton text (ups_grid_html trick hostile_list)
      ≡ skeleton text (ups_grid_html (codes "rack") listed))
    × (skeleton text (detail_html hostile_detail) ≡ skeleton text (detail_html detail))
page-skeleton_example =
    page-skeleton trick (codes "rack") hostile_list listed hostile_detail detail same_marks
      same_outline
