-- ===== src/Controller/App/Toasts.antt =====
-- The toasts of the controller: showToast in controller/web/src/App.tsx, and
-- controller/web/src/components/ToastSnackbar.tsx. The timer of MUI's Snackbar is a parameter.
pub mod Laws
mod Tests
use strom.Prelude.{
  ℕ, Text, ◌≡◌, Bool, true, false, Option, none, some, List, [], ◌∷◌, if◌then◌else◌,
}

pub data Severity : Type 0 where
  success info warning error : Severity

pub record ToastRequest : Type 0 where
  pub message : Text
  pub severity : Severity

abbrev pub auto_hide_ms : Severity → Option ℕ
auto_hide_ms success = some 3200
auto_hide_ms info = some 3200
auto_hide_ms warning = some 4500
auto_hide_ms error = none

-- `toast` of App.tsx; a call without a severity is one of `info`.
unfoldable pub show_toast : Text → Severity → Option ToastRequest → Option ToastRequest
show_toast message severity toast = some (record { message = message; severity = severity })

-- The properties that ToastSnackbar.tsx gives to Snackbar.
unfoldable pub is_open : Option ToastRequest → Bool
is_open none = false
is_open (some request) = true

unfoldable pub auto_hide_duration : Option ToastRequest → Option ℕ
auto_hide_duration none = none
auto_hide_duration (some request) = auto_hide_ms request.severity

-- Why Snackbar calls `onClose`.
pub data Reason : Type 0 where
  timeout clickaway escape_key_down : Reason

unfoldable pub close_toast : Reason → Option ToastRequest → Option ToastRequest
close_toast clickaway toast = toast
close_toast _ toast = none

-- The button of the alert.
unfoldable pub dismiss : Option ToastRequest → Option ToastRequest
dismiss toast = none

-- Snackbar's own state `T`, with its timer: `fires` says that it calls `onClose` for it. By its
-- documentation it does not if it has no duration.
pub record Snackbar (T : Type 0) : Type 0 where
  pub render : Bool → Option ℕ → T → T
  pub elapse : ℕ → T → T
  pub duration : T → Option ℕ
  pub fires : T → Bool
  pub duration-render :
      (is_open : Bool) (ms : Option ℕ) (t : T) → duration (render is_open ms t) ≡ ms
  pub duration-elapse : (time : ℕ) (t : T) → duration (elapse time t) ≡ duration t
  pub fires_none : (t : T) → duration t ≡ none → fires t ≡ false

-- What is on the page: the toast, and the Snackbar that shows it.
pub record Page (T : Type 0) : Type 0 where
  pub toast : Option ToastRequest
  pub bar : T

pub data Event : Type 0 where
  show : (message : Text) (severity : Severity) → Event
  close : Reason → Event
  press_close : Event
  pass : (time : ℕ) → Event

module _ {T : Type 0} (snackbar : Snackbar T) where
  abbrev pub shown : Option ToastRequest → T → Page T
  shown toast bar = record {
    toast = toast;
    bar = snackbar.render (is_open toast) (auto_hide_duration toast) bar;
  }

  abbrev pub passed : Option ToastRequest → T → Page T
  passed toast bar = shown (if snackbar.fires bar then close_toast timeout toast else toast) bar

  -- A render follows each event. For a `timeout` of its own Snackbar needs its timer.
  unfoldable pub handle : Event → Page T → Page T
  unfolding show_toast is_open auto_hide_duration close_toast dismiss
  handle (show message severity) p = shown (show_toast message severity p.toast) p.bar
  handle (close timeout) p = passed p.toast p.bar
  handle (close reason) p = shown (close_toast reason p.toast) p.bar
  handle press_close p = shown (dismiss p.toast) p.bar
  handle (pass time) p = passed p.toast (snackbar.elapse time p.bar)

  abbrev pub run : List Event → Page T → Page T
  run [] p = p
  run (e ∷ es) p = run es (handle e p)
