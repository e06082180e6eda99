-- ===== src/Dashboard/Toast.antt =====
-- The toast of agent/internal/api/web/app.js and the timer that hides it. The browser's timeouts and
-- its clock, in milliseconds, are part of the state. (`Store` keeps the text of the last toast only.)
pub mod Laws
mod Tests
use strom.Prelude.{
  ℕ, ◌+◌, Text, Bool, true, false, not, Option, none, some, List, [], ◌∷◌, ◌==◌, leb, ltb, any,
  keep, if◌then◌else◌,
}

pub record Timeout : Type 0 where
  pub handle : ℕ
  pub due : ℕ

-- `toast_timer` is `state.toastTimer`, which keeps its handle after the timeout has run.
pub record ToastState : Type 0 where
  pub text : Text
  pub is_visible : Bool
  pub is_error : Bool
  pub toast_timer : Option ℕ
  pub timeouts : List Timeout
  pub next_handle : ℕ
  pub clock : ℕ

abbrev pub toast_duration : ℕ
toast_duration = 3600

abbrev clear_timeout : Option ℕ → List Timeout → List Timeout
clear_timeout none timeouts = timeouts
clear_timeout (some handle) timeouts = keep (λ t. not (t.handle == handle)) timeouts

unfoldable pub show_toast : Text → Bool → ToastState → ToastState
show_toast message is_error s = record s {
  text = message;
  is_visible = true;
  is_error = is_error;
  toast_timer = some s.next_handle;
  timeouts =
      record { handle = s.next_handle; due = s.clock + toast_duration }
      ∷ clear_timeout s.toast_timer s.timeouts;
  next_handle = s.next_handle + 1;
}

-- The callback of every timeout that is due hides the toast.
unfoldable pub wait : ℕ → ToastState → ToastState
wait time s =
    let due = any (λ t. leb t.due (s.clock + time)) s.timeouts in
    record s {
      clock = s.clock + time;
      timeouts = keep (λ t. ltb (s.clock + time) t.due) s.timeouts;
      is_visible = if due then false else s.is_visible;
      is_error = if due then false else s.is_error;
    }
