-- ===== src/Dashboard/Live.antt =====
-- The live updates of agent/internal/api/web/app.js: the UPS list that each health event of the
-- stream carries, and the reload of the whole list. UPS names are not empty.
pub mod Laws
pub mod Patching
mod Tests
use strom.Prelude.{
  String, str_eq, Text, codes, Bool, true, false, ◌&&◌, Option, none, some, List, [], ◌∷◌,
  if◌then◌else◌, any, find,
}
use strom.Dashboard.Status.{status_class}
use strom.Dashboard.Store.{
  Ups, Detail, View, Panel, message, shown, Store, render_ups_grid, render_empty_detail, load_begin,
  show_toast,
}

module _ {R : Type 0} where
  abbrev pub is_listed : Option String → List (Ups R) → Bool
  is_listed none upses = false
  is_listed (some name) upses = any (λ ups. str_eq ups.name name) upses

  abbrev patch_view : Ups R → View R → View R
  patch_view m v = record v {
    status = m.status;
    chip = status_class (codes m.status);
    reading = m.reading;
  }

  -- A panel with a message has no chip and no metric to patch.
  abbrev patch_panel : Ups R → Panel R → Panel R
  patch_panel m (message text) = message text
  patch_panel m (shown v) = shown (patch_view m v)

  abbrev pub patch_detail : Ups R → Option (Detail R) → Store R → Store R
  patch_detail m none s = s
  patch_detail m (some d) s =
      if str_eq d.name m.name
      then record s {
        detail = some (record d { reading = m.reading; status = m.status });
        panel = patch_panel m s.panel;
      }
      else s

  unfoldable pub update_detail_metrics : Ups R → Store R → Store R
  update_detail_metrics m s = patch_detail m s.detail s

  abbrev pub find_selected : Option String → List (Ups R) → Option (Ups R)
  find_selected none upses = none
  find_selected (some name) upses = find (λ ups. str_eq ups.name name) upses

  abbrev pub update_match : Option (Ups R) → Store R → Store R
  update_match none s = s
  update_match (some m) s = update_detail_metrics m s

  -- What happens if the selected UPS is not in the list. The load is not awaited.
  abbrev pub select_first : List (Ups R) → Store R → Store R
  select_first [] s = render_empty_detail none (record s { selected = none; detail = none })
  select_first (ups ∷ upses) s = load_begin ups.name s

  unfoldable pub update_live_ups_data : List (Ups R) → Store R → Store R
  unfolding update_detail_metrics render_ups_grid render_empty_detail load_begin
  update_live_ups_data upses s =
      let s' = render_ups_grid (record s { upses = upses }) in
      if is_listed s.selected upses
      then update_match (find_selected s.selected upses) s'
      else select_first upses s'

  abbrev first_name : List (Ups R) → Option String
  first_name [] = none
  first_name (ups ∷ upses) = some ups.name

  -- `if (!state.selectedUPS && upses.length > 0)`
  abbrev pub select_if_none : Option String → List (Ups R) → Option String
  select_if_none none upses = first_name upses
  select_if_none (some name) upses = some name

  abbrev pub keep_listed : Bool → Option String → List (Ups R) → Option String
  keep_listed preserve none upses = none
  keep_listed preserve (some name) upses =
      if preserve
      then if is_listed (some name) upses then some name else first_name upses
      else some name

  abbrev pub load_selected : Option String → Store R → Store R
  load_selected none s = render_empty_detail none s
  load_selected (some name) s = load_begin name s

  -- `refreshAll` with the reply to its first request, up to the `await` of the load.
  unfoldable pub refresh_with : Bool → List (Ups R) → Store R → Store R
  unfolding render_ups_grid render_empty_detail load_begin
  refresh_with preserve upses s =
      let selected = keep_listed preserve (select_if_none s.selected upses) upses in
      load_selected selected (render_ups_grid (record s { upses = upses; selected = selected }))

  -- Without that reply.
  unfoldable pub refresh_failed : Text → Store R → Store R
  refresh_failed text s = show_toast text true s

  -- After the load.
  unfoldable pub refresh_done : Bool → Store R → Store R
  refresh_done silent s = if silent then s else show_toast (codes "Dashboard refreshed.") false s
