-- ===== src/Dashboard/Settings/Tests.antt =====
-- A UPS with two settings, one of them edited.
use strom.Prelude.{
  ℕ, str_eq, codes, text_eq, ◌≡◌, refl, true, false, not, none, some, List, [], ◌∷◌, any,
}
use strom.Dashboard.Store.{
  Detail, Control, message, view, ok, Store, load_end, show_toast, post_setvar, get_detail,
}
use strom.Dashboard.Settings.{trim, controls_of, handle_variable_input_change}
use strom.Dashboard.Settings.Loop.{Run, apply_begin, answer, apply_dirty_variables}
use strom.Dashboard.Settings.Laws.{
  IsMarked, load_end-IsMarked, handle_change-IsMarked, handle_change-edited,
}
use strom.Dashboard.Settings.Apply.{refuse, editing, refused-lost}

abbrev ups_detail : Detail ℕ
ups_detail = record {
  name = "rack";
  driver = "snmp-ups";
  display_name = "";
  status = "OL";
  reading = 3;
  writable =
      record { name = "ups.delay.start"; current_value = codes "30" }
      ∷ record { name = "ups.id"; current_value = codes "rack" }
      ∷ [];
  commands = [];
}

abbrev blank : Store ℕ
blank = record {
  upses = [];
  selected = some "rack";
  detail = none;
  dirty = [];
  grid = [];
  panel = message none;
  sent = [];
  toast = none;
}

abbrev page : Store ℕ
page = load_end true "rack" (ok ups_detail) blank

handle_change-IsMarked_example :
    IsMarked (handle_variable_input_change "ups.id" (codes " desk ") page)
handle_change-IsMarked_example =
    handle_change-IsMarked "ups.id" (codes " desk ") page
      (load_end-IsMarked true "rack" ups_detail blank).1

abbrev id_control : Control
id_control = record {
  name = "ups.id";
  original = codes "rack";
  value = codes "rack";
  is_dirty = false;
}

page-id_control : controls_of page.panel ≡ (view ups_detail).controls
unfolding load_end view
page-id_control = refl

handle_change-edited_test :
    any
      (str_eq "ups.id")
      (handle_variable_input_change "ups.id"
        (codes " desk ")
        (editing "rack" ups_detail (view ups_detail) [] blank)).dirty
    ≡ not (text_eq (trim (codes " desk ")) (codes "rack"))
unfolding view
handle_change-edited_test =
    handle_change-edited "ups.id" (codes " desk ") id_control
      (editing "rack" ups_detail (view ups_detail) [] blank) refl

-- An edit, and one of a variable that is no longer there.
abbrev edited : Store ℕ
edited = editing "rack" ups_detail (view ups_detail) ("gone" ∷ "ups.id" ∷ []) blank

abbrev rack_controls : List Control
rack_controls = (view ups_detail).controls

abbrev interrupted : Run ℕ
interrupted =
    let r = apply_begin edited in
    record r { store = show_toast (codes "Health stream is live.") false r.store }

abbrev applied : Run ℕ
applied = answer (ok tt) interrupted

applied-sent :
    applied.store.sent ≡ post_setvar "rack" "ups.id" (codes "rack") ∷ get_detail "rack" ∷ []
unfolding apply_begin answer view trim codes
applied-sent = refl

abbrev refused : Store ℕ
refused =
    apply_dirty_variables (refuse (codes "read only"))
      (editing "rack" ups_detail (view ups_detail) ("ups.id" ∷ []) blank)

refused-lost_example :
    (refused.dirty ≡ "ups.id" ∷ [])
    × ((load_end true "rack" (ok ups_detail) refused).dirty ≡ [])
    × (controls_of (load_end true "rack" (ok ups_detail) refused).panel
        ≡ (view ups_detail).controls)
unfolding view
refused-lost_example =
    refused-lost (codes "read only") "rack" "ups.id" ups_detail ups_detail (view ups_detail) []
      blank ((_, refl), (_, refl), tt)
