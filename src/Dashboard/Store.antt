-- ===== src/Dashboard/Store.antt =====
-- The UPS part of the dashboard's state in agent/internal/api/web/app.js: inventory, selection,
-- loaded detail, unapplied edits, the two parts of the page that show them, and the requests that
-- were sent. `R` is the type of a UPS's readings, which these operations only pass on.
-- An `async` function is cut at its `await`: what runs before it, and what runs with the reply.
pub mod Race
mod Tests
use strom.Prelude.{
  ℕ, String, str_eq, Text, codes, decimal, Bool, true, false, not, ◌&&◌, Option, none, some, List,
  [], ◌∷◌, ◌++◌, map, if◌then◌else◌, any, find, length, ◌==◌,
}
use strom.Dashboard.Status.{Chip, status_class}

pub record Ups (R : Type 0) : Type 0 where
  pub name : String
  pub driver : String
  pub display_name : String
  pub status : String
  pub reading : R

pub record Variable : Type 0 where
  pub name : String
  pub current_value : Text

pub record Command : Type 0 where
  pub name : String
  pub destructive : Bool

pub record Detail (R : Type 0) : Type 0 where
  pub name : String
  pub driver : String
  pub display_name : String
  pub status : String
  pub reading : R
  pub writable : List Variable
  pub commands : List Command

-- An article of the grid; no card at all is the empty state of `renderUPSGrid`.
pub record Card : Type 0 where
  pub ups_name : String
  pub title : String
  pub driver : String
  pub status : String
  pub chip : Chip
  pub is_selected : Bool

-- An input of the settings section: `data-variable-original`, the value in it, the row's mark.
pub record Control : Type 0 where
  pub name : String
  pub original : Text
  pub value : Text
  pub is_dirty : Bool

-- The bar below the inputs, which is there if the UPS has a writable variable.
pub record ApplyBar : Type 0 where
  pub disabled : Bool
  pub hint : Text

pub record View (R : Type 0) : Type 0 where
  pub name : String
  pub title : String
  pub status : String
  pub chip : Chip
  pub reading : R
  pub controls : List Control
  pub bar : Option ApplyBar

pub data Panel (R : Type 0) : Type 0 where
  message : Option Text → Panel R
  shown : View R → Panel R

pub data Request : Type 0 where
  get_detail : String → Request
  post_command : (ups command : String) → Request
  post_setvar : (ups variable : String) (value : Text) → Request

pub data Reply (A : Type 0) : Type 0 where
  ok : A → Reply A
  failed : Text → Reply A

pub record Toast : Type 0 where
  pub text : Text
  pub is_error : Bool

pub record Store (R : Type 0) : Type 0 where
  pub upses : List (Ups R)
  pub selected : Option String
  pub detail : Option (Detail R)
  pub dirty : List String
  pub grid : List Card
  pub panel : Panel R
  pub sent : List Request
  pub toast : Option Toast

-- `name === state.selectedUPS`
abbrev pub is_selected_name : Option String → String → Bool
is_selected_name none name = false
is_selected_name (some selected) name = str_eq name selected

abbrev pub or_string : String → String → String
or_string first second = if str_eq first "" then second else first

module _ {R : Type 0} where
  unfoldable pub cards : List (Ups R) → Option String → List Card
  cards [] selected = []
  cards (ups ∷ upses) selected =
      record {
        ups_name = ups.name;
        title = or_string ups.display_name ups.name;
        driver = ups.driver;
        status = ups.status;
        chip = status_class (codes ups.status);
        is_selected = is_selected_name selected ups.name;
      }
      ∷ cards upses selected

  unfoldable pub render_ups_grid : Store R → Store R
  render_ups_grid s = record s { grid = cards s.upses s.selected }

  -- `text` is `none` for the default message.
  unfoldable pub render_empty_detail : Option Text → Store R → Store R
  render_empty_detail text s = record s { panel = message text }

  abbrev pub show_toast : Text → Bool → Store R → Store R
  show_toast text is_error s = record s {
    toast = some (record { text = text; is_error = is_error });
  }

unfoldable pub settings_hint : ℕ → Text
settings_hint count =
    if count == 0
    then codes "No changes to apply."
    else decimal count
      ++ codes " setting"
      ++ (if count == 1 then [] else codes "s")
      ++ codes " changed."

abbrev pub bar_for : ℕ → ApplyBar
bar_for count = record { disabled = count == 0; hint = settings_hint count }

abbrev pub set_bar : ℕ → Option ApplyBar → Option ApplyBar
set_bar count none = none
set_bar count (some bar) = some (bar_for count)

abbrev pub fresh_control : Variable → Control
fresh_control variable = record {
  name = variable.name;
  original = variable.current_value;
  value = variable.current_value;
  is_dirty = false;
}

abbrev fresh_bar : List Variable → Option ApplyBar
fresh_bar [] = none
fresh_bar (v ∷ vs) = some (bar_for 0)

module _ {R : Type 0} where
  abbrev pub set_panel_bar : ℕ → Panel R → Panel R
  set_panel_bar count (message text) = message text
  set_panel_bar count (shown v) = shown (record v { bar = set_bar count v.bar })

  unfoldable pub update_settings_apply_button : Store R → Store R
  update_settings_apply_button s = record s { panel = set_panel_bar (length s.dirty) s.panel }

  unfoldable pub view : Detail R → View R
  view d = record {
    name = d.name;
    title = or_string d.display_name d.name;
    status = d.status;
    chip = status_class (codes d.status);
    reading = d.reading;
    controls = map fresh_control d.writable;
    bar = fresh_bar d.writable;
  }

  abbrev render_loaded : Option (Detail R) → Store R → Store R
  render_loaded none s = render_empty_detail none s
  render_loaded (some d) s =
      update_settings_apply_button (record s { dirty = []; panel = shown (view d) })

  unfoldable pub render_detail : Store R → Store R
  unfolding render_empty_detail update_settings_apply_button view
  render_detail s = render_loaded s.detail s

  -- `loadUPSDetail` up to its `await`, and with the reply. A toast of success is shown unless silent.
  unfoldable pub load_begin : String → Store R → Store R
  unfolding render_ups_grid
  load_begin name s =
      let s' = render_ups_grid (record s { selected = some name }) in
      record s' { sent = s'.sent ++ get_detail name ∷ [] }

  unfoldable pub load_end : Bool → String → Reply (Detail R) → Store R → Store R
  unfolding render_detail render_empty_detail
  load_end silent name (ok d) s =
      let s' = render_detail (record s { detail = some d }) in
      if silent then s' else show_toast (codes "Loaded " ++ codes name ++ codes ".") false s'
  load_end silent name (failed text) s = show_toast text true (render_empty_detail (some text) s)
