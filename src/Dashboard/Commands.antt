-- ===== src/Dashboard/Commands.antt =====
-- Instant commands in agent/internal/api/web/app.js: `runCommand` and the confirmation dialog.
pub mod Laws
mod Tests
use strom.Prelude.{
  String, str_eq, Text, codes, Bool, true, false, Option, none, some, List, [], ◌∷◌, ◌++◌,
  if◌then◌else◌, find,
}
use strom.Dashboard.Store.{
  Command, Detail, Request, post_command, Reply, ok, failed, Store, show_toast, load_begin,
}

-- The JSON of a command's success.
pub record Output : Type 0 where
  pub command : Text
  pub output : Text

pub record Console (R : Type 0) : Type 0 where
  pub store : Store R
  pub pending : Option Command
  pub modal_open : Bool
  pub confirm_text : Text

abbrev or_ok : Text → Text
or_ok [] = codes "OK"
or_ok (c ∷ t) = c ∷ t

abbrev name_text : Option String → Text
name_text none = codes "null"
name_text (some name) = codes name

module _ {R : Type 0} where
  abbrev with_command : Option String → Command → Store R → Store R
  with_command none command s = s
  with_command (some ups) command s = record s {
    sent = s.sent ++ post_command ups command.name ∷ [];
  }

  -- `runCommand` up to its first `await`.
  unfoldable pub run_command : Command → Store R → Store R
  run_command command s = with_command s.selected command s

  abbrev load_again : Option String → Store R → Store R
  load_again none s = s
  load_again (some ups) s = load_begin ups s

  -- `runCommand` with the reply, up to the `await` of the load.
  unfoldable pub command_end : Reply Output → Store R → Store R
  unfolding load_begin
  command_end (ok r) s =
      load_again s.selected (show_toast (r.command ++ codes ": " ++ or_ok r.output) false s)
  command_end (failed text) s = show_toast text true s

  unfoldable pub open_confirm_modal : Command → Console R → Console R
  open_confirm_modal command c = record c {
    pending = some command;
    modal_open = true;
    confirm_text =
        codes "Run "
        ++ codes command.name
        ++ codes " on "
        ++ name_text c.store.selected
        ++ codes "? This action cannot be undone.";
  }

  unfoldable pub close_confirm_modal : Console R → Console R
  close_confirm_modal c = record c { pending = none; modal_open = false }

  abbrev run_in : Command → Console R → Console R
  run_in command c = record c { store = run_command command c.store }

  abbrev start_found : Option Command → Console R → Console R
  start_found none c = c
  start_found (some command) c =
      if command.destructive then open_confirm_modal command c else run_in command c

  -- The listener of a command's button, for the detail that was rendered with it.
  unfoldable pub click_command : Detail R → String → Console R → Console R
  unfolding run_command open_confirm_modal
  click_command detail name c =
      start_found (find (λ command. str_eq command.name name) detail.commands) c

  abbrev submit_pending : Option Command → Console R → Console R
  submit_pending none c = c
  submit_pending (some command) c = run_in command (close_confirm_modal c)

  -- The listener of the confirming button.
  unfoldable pub submit_confirm : Console R → Console R
  unfolding run_command close_confirm_modal
  submit_confirm c = submit_pending c.pending c
