-- ===== src/Dashboard/Commands/Laws.antt =====
-- A destructive command is sent only after its confirmation.
use strom.Prelude.{
  ◌≡◌, refl, sym, ap, ◌∙◌, append_assoc, append-nil, map, Bool, String, str_eq, codes,
  if◌then◌else◌, true, false, Option, none, some, List, [], ◌∷◌, ◌++◌, arith, find,
}
use strom.Dashboard.Live.{is_listed, update_live_ups_data}
use strom.Dashboard.Store.{Ups, Command, Detail, Request, post_command, Store}
use strom.Dashboard.Commands.{
  Console, run_command, with_command, start_found, submit_pending, open_confirm_modal,
  close_confirm_modal, run_in, click_command, submit_confirm,
}

-- What the user does with the command buttons and the dialog.
pub data Action (R : Type 0) : Type 0 where
  click : (detail : Detail R) (name : String) → Action R
  submit cancel : Action R

-- What a click sends at once: a command that is found and not destructive.
abbrev at_once : Option Command → List Command
at_once none = []
at_once (some command) = if command.destructive then [] else command ∷ []

-- What is to be confirmed after a click, if `asked` was before it.
abbrev asked_after : Option Command → Option Command → Option Command
asked_after asked none = asked
asked_after asked (some command) = if command.destructive then some command else asked

abbrev confirmed : Option Command → List Command
confirmed none = []
confirmed (some command) = command ∷ []

abbrev pub posts : Option String → List Command → List Request
posts none commands = []
posts (some ups) commands = map (λ command. post_command ups command.name) commands

posts-append :
    (o : Option String) (xs ys : List Command) → posts o (xs ++ ys) ≡ posts o xs ++ posts o ys
posts-append none xs ys = refl
posts-append (some ups) [] ys = refl
posts-append (some ups) (x ∷ xs) ys =
    ap (post_command ups x.name ∷◌) (posts-append (some ups) xs ys)

posts-none : (o : Option String) (rest : List Request) → rest ≡ rest ++ posts o []
posts-none none rest = sym (append-nil rest)
posts-none (some ups) rest = sym (append-nil rest)

module _ {R : Type 0} where
  abbrev pub act : Action R → Console R → Console R
  act (click detail name) c = click_command detail name c
  act submit c = submit_confirm c
  act cancel c = close_confirm_modal c

  abbrev pub act_all : List (Action R) → Console R → Console R
  act_all [] c = c
  act_all (a ∷ rest) c = act_all rest (act a c)

  abbrev sent_by : Option Command → Action R → List Command
  sent_by asked (click detail name) =
      at_once (find (λ command. str_eq command.name name) detail.commands)
  sent_by asked submit = confirmed asked
  sent_by asked cancel = []

  abbrev next_asked : Option Command → Action R → Option Command
  next_asked asked (click detail name) =
      asked_after asked (find (λ command. str_eq command.name name) detail.commands)
  next_asked asked submit = none
  next_asked asked cancel = none

  -- What the user asks for, if `asked` is to be confirmed at first.
  abbrev pub requested : Option Command → List (Action R) → List Command
  requested asked [] = []
  requested asked (a ∷ rest) = sent_by asked a ++ requested (next_asked asked a) rest

  -- One action sends `commands` and leaves `asked` to be confirmed.
  record IsAct (commands : List Command) (asked : Option Command) (c d : Console R) : Type 0 where
    selected : d.store.selected ≡ c.store.selected
    pending : d.pending ≡ asked
    sent : d.store.sent ≡ c.store.sent ++ posts c.store.selected commands

  run_command-sent :
      (selected : Option String) (command : Command) (s : Store R)
      → (with_command selected command s).sent ≡ s.sent ++ posts selected (command ∷ [])
  run_command-sent none command s = sym (append-nil s.sent)
  run_command-sent (some ups) command s = refl

  run_command-selected :
      (selected : Option String) (command : Command) (s : Store R)
      → (with_command selected command s).selected ≡ s.selected
  run_command-selected none command s = refl
  run_command-selected (some ups) command s = refl

  -- A destructive command is asked for, and another one is run.
  ask_or_run-IsAct :
      (b : Bool) (command : Command) (c : Console R)
      → IsAct
          (if b then [] else command ∷ [])
          (if b then some command else c.pending)
          c
          (if b then open_confirm_modal command c else run_in command c)
  unfolding run_command open_confirm_modal
  ask_or_run-IsAct true command c = record {
    selected = refl;
    pending = refl;
    sent = posts-none c.store.selected c.store.sent;
  }
  ask_or_run-IsAct false command c = record {
    selected = run_command-selected c.store.selected command c.store;
    pending = refl;
    sent = run_command-sent c.store.selected command c.store;
  }

  start_found-IsAct :
      (o : Option Command) (c : Console R)
      → IsAct (at_once o) (asked_after c.pending o) c (start_found o c)
  start_found-IsAct none c = record {
    selected = refl;
    pending = refl;
    sent = posts-none c.store.selected c.store.sent;
  }
  start_found-IsAct (some command) c = ask_or_run-IsAct command.destructive command c

  submit_pending-IsAct :
      (o : Option Command) (c : Console R)
      → c.pending ≡ o
      → IsAct (confirmed o) none c (submit_pending o c)
  unfolding run_command close_confirm_modal
  submit_pending-IsAct none c e = record {
    selected = refl;
    pending = e;
    sent = posts-none c.store.selected c.store.sent;
  }
  submit_pending-IsAct (some command) c e = record {
    selected = run_command-selected c.store.selected command c.store;
    pending = refl;
    sent = run_command-sent c.store.selected command c.store;
  }

  act-IsAct :
      (a : Action R) (c : Console R)
      → IsAct (sent_by c.pending a) (next_asked c.pending a) c (act a c)
  unfolding click_command submit_confirm
  act-IsAct (click detail name) c = start_found-IsAct _ c
  act-IsAct submit c = submit_pending-IsAct c.pending c refl
  act-IsAct cancel c =
      unfold close_confirm_modal in
      record { selected = refl; pending = refl; sent = posts-none c.store.selected c.store.sent }

  -- A health event while the dialog may be open.
  abbrev pub stream_update : List (Ups R) → Console R → Console R
  stream_update upses c = record c { store = update_live_ups_data upses c.store }

  -- However the user clicks, confirms and cancels while a UPS is selected, the requests that are sent
  -- to it are exactly those asked for, in this order: a command that is not destructive at its click,
  -- and a destructive one at the first confirmation after its click, unless the dialog was cancelled
  -- or asks for another command since; each confirmation sends it once. Without a selected UPS none is
  -- sent.
  pub act_all-sent :
      (rest : List (Action R)) (c : Console R)
      → (act_all rest c).store.sent
        ≡ c.store.sent ++ posts c.store.selected (requested c.pending rest)
  act_all-sent [] c = posts-none c.store.selected c.store.sent
  act_all-sent (a ∷ rest) c =
      let step = act-IsAct a c in
      let now = posts c.store.selected (sent_by c.pending a) in
      let later = posts c.store.selected (requested (next_asked c.pending a) rest) in
      act_all-sent rest (act a c)
      ∙ rw (step.selected, step.pending, step.sent) (append_assoc c.store.sent now later)
      ∙ ap (c.store.sent ++◌) (
          sym (
            posts-append c.store.selected (sent_by c.pending a)
              (requested (next_asked c.pending a) rest)))

  -- The dialog is opened for a command, and then the stream brings a list.
  abbrev pub dropped : Command → Ups R → List (Ups R) → Console R → Console R
  dropped command u upses c = stream_update (u ∷ upses) (open_confirm_modal command c)

  -- If the stream drops the selected UPS while the dialog is open, the dialog still names that UPS,
  -- and its confirmation sends the destructive command to the first UPS of the new list.
  pub confirm-other_ups :
      (command : Command) (a : String) (u : Ups R) (upses : List (Ups R)) (c : Console R)
      → c.store.selected ≡ some a
      → is_listed (some a) (u ∷ upses) ≡ false
      → ((dropped command u upses c).confirm_text
          ≡ codes "Run "
            ++ codes command.name
            ++ codes " on "
            ++ codes a
            ++ codes "? This action cannot be undone.")
        × ((dropped command u upses c).modal_open ≡ true)
        × ((submit_confirm (dropped command u upses c)).store.sent
            ≡ (dropped command u upses c).store.sent ++ post_command u.name command.name ∷ [])
  unfolding open_confirm_modal submit_confirm update_live_ups_data
  confirm-other_ups command a u upses c sel gone = (rw sel refl, refl, ground arith)
