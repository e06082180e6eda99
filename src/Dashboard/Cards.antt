-- ===== src/Dashboard/Cards.antt =====
-- The listeners of agent/internal/api/web/app.js that protect unapplied edits: on the cards of the
-- grid, and before the page is left.
pub mod Laws
mod Tests
use strom.Prelude.{
  String, Bool, true, false, not, ◌&&◌, Option, none, some, List, [], ◌∷◌, if◌then◌else◌,
}
use strom.Dashboard.Store.{Store, is_selected_name, load_begin}

abbrev pub has_edits : List String → Bool
has_edits [] = false
has_edits (name ∷ names) = true

module _ {R : Type 0} where
  -- `select`, with the answer of `window.confirm`, up to the `await` of the load.
  unfoldable pub select_card : Bool → String → Store R → Store R
  unfolding load_begin
  select_card proceed name s =
      if has_edits s.dirty && not (is_selected_name s.selected name)
      then if proceed then load_begin name s else s
      else load_begin name s

  -- Whether the `beforeunload` listener prevents the event.
  unfoldable pub keeps_page : Store R → Bool
  keeps_page s = has_edits s.dirty
