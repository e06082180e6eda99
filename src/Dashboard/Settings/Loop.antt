-- ===== src/Dashboard/Settings/Loop.antt =====
-- `applyDirtyVariables` of agent/internal/api/web/app.js, cut at each `await` of its loop. Between a
-- request and its reply the page may change: the loop reads the selected UPS, the detail and the control
-- again for each name, of the snapshot that it took at first.
use strom.Prelude.{
  ℕ, ◌+◌, String, Text, codes, decimal, true, false, Option, none, some, List, [], ◌∷◌, ◌++◌,
  if◌then◌else◌, ◌==◌,
}
use strom.Dashboard.Store.{
  Variable, Detail, Control, ApplyBar, Panel, message, shown, get_detail, post_setvar, Reply, ok,
  failed, Store, show_toast, render_ups_grid, load_begin,
}
use strom.Dashboard.Settings.{trim, delete, find_control, find_variable}

abbrev pub disabled_bar : Option ApplyBar → Option ApplyBar
disabled_bar none = none
disabled_bar (some bar) = some (record bar { disabled = true })

-- A request that has no reply yet: the name of the snapshot, and what was sent.
pub record Waiting : Type 0 where
  pub name : String
  pub variable : String
  pub value : Text

-- The loop at an `await`, or at its end if it waits for nothing.
pub record Run (R : Type 0) : Type 0 where
  pub store : Store R
  pub left : List String
  pub waiting : Option Waiting
  pub succeeded : ℕ
  pub failures : ℕ

-- A null in the template of an address is its name.
abbrev pub selected_text : Option String → String
selected_text none = "null"
selected_text (some ups) = ups

module _ {R : Type 0} where
  abbrev pub applied_toast : ℕ → Store R → Store R
  applied_toast count s =
      if count == 0
      then s
      else show_toast
          (if count == 1
            then codes "Setting applied."
            else decimal count ++ codes " settings applied.")
          false s

  abbrev pub load_current : Option String → Store R → Store R
  load_current none s =
      let s' = render_ups_grid s in record s' { sent = s'.sent ++ get_detail "null" ∷ [] }
  load_current (some ups) s = load_begin ups s

  -- After the loop, up to the `await` of the reload.
  abbrev pub finish : Run R → Run R
  finish r = record r {
    store = load_current r.store.selected (applied_toast r.succeeded r.store);
    left = [];
    waiting = none;
  }

  -- `setWritableVariable` up to its `await`.
  abbrev pub set_writable_variable : String → List String → Variable → Text → Run R → Run R
  set_writable_variable name names variable value r = record r {
    store = record (r.store) {
      sent = r.store.sent ++ post_setvar (selected_text r.store.selected) variable.name value ∷ [];
    };
    left = names;
    waiting = some (record { name = name; variable = variable.name; value = value });
  }

  abbrev pub visit : String → List String → Option Variable → Option Control → Run R → Run R → Run R
  visit name names (some variable) (some control) later r =
      set_writable_variable name names variable (trim control.value) r
  visit name names (some variable) none later r = later
  visit name names none control later r = later

  -- Without a detail `state.detail.writable` throws, which ends the loop.
  abbrev pub at_name : String → List String → Option (Detail R) → Run R → Run R → Run R
  at_name name names none later r = record r { left = []; waiting = none }
  at_name name names (some d) later r =
      visit name names (find_variable name (some d)) (find_control name r.store.panel) later r

  abbrev pub drop_edit : String → Run R → Run R
  drop_edit name r = record r { store = record (r.store) { dirty = delete name r.store.dirty } }

  -- The loop over the names that are left, up to its next `await`.
  unfoldable pub advance : List String → Run R → Run R
  unfolding delete trim load_begin render_ups_grid
  advance [] r = finish r
  advance (name ∷ names) r =
      let later = advance names (drop_edit name r) in at_name name names r.store.detail later r

  abbrev pub settle_waiting : Reply (Unit {0}) → Option Waiting → Run R → Run R
  settle_waiting reply none r = r
  settle_waiting (ok done) (some w) r =
      advance r.left (record (drop_edit (w.name) r) { waiting = none; succeeded = r.succeeded + 1 })
  settle_waiting (failed text) (some w) r = advance r.left (record r {
    store = show_toast (codes w.variable ++ codes ": " ++ text) true r.store;
    waiting = none;
    failures = r.failures + 1;
  })

  -- The reply to the request that the loop waits for, and the loop up to its next `await`.
  unfoldable pub answer : Reply (Unit {0}) → Run R → Run R
  unfolding advance
  answer reply r = settle_waiting reply r.waiting r

  abbrev pub disable_bar : Panel R → Panel R
  disable_bar (message text) = message text
  disable_bar (shown v) = shown (record v { bar = disabled_bar v.bar })

  abbrev pub idle : Store R → Run R
  idle s = record { store = s; left = []; waiting = none; succeeded = 0; failures = 0 }

  abbrev pub begin_with : Option String → Option (Detail R) → List String → Store R → Run R
  begin_with (some ups) (some d) (name ∷ names) s =
      advance (name ∷ names) (idle (record s { panel = disable_bar s.panel }))
  begin_with _ _ _ s = idle s

  -- The function up to its first `await`.
  unfoldable pub apply_begin : Store R → Run R
  unfolding advance
  apply_begin s = begin_with s.selected s.detail s.dirty s

  abbrev pub answer_with : (String → Text → Reply (Unit {0})) → Option Waiting → Run R → Run R
  answer_with reply none r = r
  answer_with reply (some w) r = answer (reply w.variable w.value) r

  -- At most as many replies as there are names.
  abbrev pub answer_all : (String → Text → Reply (Unit {0})) → List String → Run R → Run R
  answer_all reply [] r = r
  answer_all reply (name ∷ names) r = answer_all reply names (answer_with reply r.waiting r)

  -- The whole function, if `reply` is what the agent answers to each request and no other event comes
  -- in between, up to the `await` of the reload.
  unfoldable pub apply_dirty_variables : (String → Text → Reply (Unit {0})) → Store R → Store R
  unfolding apply_begin answer
  apply_dirty_variables reply s = (answer_all reply s.dirty (apply_begin s)).store
