-- ===== src/Dashboard/Settings.antt =====
-- The settings of a UPS in agent/internal/api/web/app.js: edits of writable variables, which
-- Settings/Loop applies. A UPS has one control for each name of a writable variable.
pub mod Laws
pub mod Loop
pub mod Requests
pub mod Sending
pub mod Interleaving
pub mod Apply
mod Tests
use strom.Prelude.{
  ℕ, ◌+◌, String, str_eq, Text, codes, decimal, text_eq, Bool, true, false, not, ◌&&◌, ◌||◌, Option,
  none, some, List, [], ◌∷◌, ◌++◌, map, reverse, if◌then◌else◌, any, find, keep, leb, ◌==◌,
}
use strom.Dashboard.Store.{
  Variable, Detail, Control, ApplyBar, View, Panel, message, shown, Request, post_setvar, Reply, ok,
  failed, Store, show_toast, update_settings_apply_button, load_begin,
}

-- `String.prototype.trim`, for the ASCII white space.
abbrev is_space : ℕ → Bool
is_space c = c == 32 || (leb 9 c && leb c 13)

unfoldable pub trim_start : Text → Text
trim_start [] = []
trim_start (c ∷ t) = if is_space c then trim_start t else c ∷ t

unfoldable pub trim : Text → Text
unfolding trim_start
trim t = reverse (trim_start (reverse (trim_start t)))

-- `Set.prototype.add` and `delete`, in insertion order.
unfoldable pub add : String → List String → List String
add name names = if any (str_eq name) names then names else names ++ name ∷ []

unfoldable pub delete : String → List String → List String
delete name names = keep (λ other. not (str_eq name other)) names

abbrev pub is_edited : Text → Control → Bool
is_edited value control = not (text_eq (trim value) control.original)

abbrev pub type_in : Text → Bool → Control → Control
type_in value edited control = record control { value = value; is_dirty = edited }

abbrev pub edit_control : String → Text → Bool → Control → Control
edit_control name value edited control =
    if str_eq name control.name then type_in value edited control else control

module _ {R : Type 0} where
  abbrev pub controls_of : Panel R → List Control
  controls_of (message text) = []
  controls_of (shown v) = v.controls

  abbrev pub find_control : String → Panel R → Option Control
  find_control name panel = find (λ control. str_eq name control.name) (controls_of panel)

  abbrev edit_controls : String → Text → Bool → Panel R → Panel R
  edit_controls name value edited (message text) = message text
  edit_controls name value edited (shown v) =
      shown (record v { controls = map (edit_control name value edited) v.controls })

  abbrev pub handle_control : String → Text → Option Control → Store R → Store R
  handle_control name value none s = s
  handle_control name value (some control) s = update_settings_apply_button (record s {
    dirty = if is_edited value control then add name s.dirty else delete name s.dirty;
    panel = edit_controls name value (is_edited value control) s.panel;
  })

  -- The listener of the control of variable `name`, after the user has put `value` into it.
  unfoldable pub handle_variable_input_change : String → Text → Store R → Store R
  unfolding update_settings_apply_button add delete trim text_eq
  handle_variable_input_change name value s =
      handle_control name value (find_control name s.panel) s

  abbrev pub find_variable : String → Option (Detail R) → Option Variable
  find_variable name none = none
  find_variable name (some d) = find (λ variable. str_eq variable.name name) d.writable
