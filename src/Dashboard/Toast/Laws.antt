-- ===== src/Dashboard/Toast/Laws.antt =====
-- How long a toast is on the page.
use strom.Prelude.{ℕ, ◌+◌, ◌≤◌, ◌≡◌, refl, Text, Bool, Option, some, List, [], ◌∷◌, ltb, arith}
use strom.Dashboard.Toast.{Timeout, ToastState, toast_duration, show_toast, wait}

pub data Event : Type 0 where
  show : (message : Text) (is_error : Bool) → Event
  pause : (time : ℕ) → Event

abbrev pub run : List Event → ToastState → ToastState
run [] s = s
run (show message is_error ∷ events) s = run events (show_toast message is_error s)
run (pause time ∷ events) s = run events (wait time s)

-- No timeout runs but the one that the state knows.
abbrev pub Tracked : Option ℕ → List Timeout → Type 0
Tracked timer [] = Unit
Tracked timer (t ∷ []) = timer ≡ some t.handle
Tracked timer (t ∷ u ∷ rest) = ⊥

wait-Tracked :
    (time : ℕ) (s : ToastState) (timeouts : List Timeout)
    → s.timeouts ≡ timeouts
    → Tracked s.toast_timer timeouts
    → Tracked (wait time s).toast_timer (wait time s).timeouts
unfolding wait
wait-Tracked time s [] e h = ground arith
wait-Tracked time s (t ∷ []) e h = ground arith
wait-Tracked time s (t ∷ u ∷ rest) e h = absurd h

show-alone :
    (message : Text) (is_error : Bool) (s : ToastState) (timeouts : List Timeout)
    → s.timeouts ≡ timeouts
    → Tracked s.toast_timer timeouts
    → (show_toast message is_error s).timeouts
      ≡ record { handle = s.next_handle; due = s.clock + toast_duration } ∷ []
unfolding show_toast
show-alone message is_error s [] e h = ground arith
show-alone message is_error s (t ∷ []) e h = ground arith
show-alone message is_error s (t ∷ u ∷ rest) e h = absurd h

show-timer :
    (message : Text) (is_error : Bool) (s : ToastState)
    → (show_toast message is_error s).toast_timer ≡ some s.next_handle
unfolding show_toast
show-timer message is_error s = refl

show-wait :
    (message : Text) (is_error : Bool) (time : ℕ) (s : ToastState) (timeouts : List Timeout)
    → s.timeouts ≡ timeouts
    → Tracked s.toast_timer timeouts
    → ((wait time (show_toast message is_error s)).text ≡ message)
      × ((wait time (show_toast message is_error s)).is_visible ≡ ltb time toast_duration)
      × (toast_duration ≤ time → (wait time (show_toast message is_error s)).timeouts ≡ [])
unfolding wait show_toast
show-wait message is_error time s [] e h = (refl, ground arith, λ k. ground arith)
show-wait message is_error time s (t ∷ []) e h = (refl, ground arith, λ k. ground arith)
show-wait message is_error time s (t ∷ u ∷ rest) e h = absurd h

run-Tracked :
    (events : List Event) (s : ToastState)
    → Tracked s.toast_timer s.timeouts
    → Tracked (run events s).toast_timer (run events s).timeouts
run-Tracked [] s h = h
run-Tracked (show message is_error ∷ events) s h =
    run-Tracked events (show_toast message is_error s) (shown message is_error s h)
  where
    shown :
        (message : Text) (is_error : Bool) (s : ToastState)
        → Tracked s.toast_timer s.timeouts
        → Tracked
            (show_toast message is_error s).toast_timer
            (show_toast message is_error s).timeouts
    shown message is_error s h =
        rw (show-alone message is_error s s.timeouts refl h) (show-timer message is_error s)
run-Tracked (pause time ∷ events) s h =
    run-Tracked events (wait time s) (wait-Tracked time s s.timeouts refl h)

-- Whatever toasts were shown before and whatever time has passed, if no timeout but the known one
-- ran at first: a toast that is shown now is on the page with its text for 3600 milliseconds, which
-- no earlier timeout cuts short, and from then on it is hidden and no timeout is left.
pub run-show-wait :
    (events : List Event) (message : Text) (is_error : Bool) (time : ℕ) (s : ToastState)
    → Tracked s.toast_timer s.timeouts
    → ((wait time (show_toast message is_error (run events s))).text ≡ message)
      × ((wait time (show_toast message is_error (run events s))).is_visible
          ≡ ltb time toast_duration)
      × (toast_duration ≤ time
          → (wait time (show_toast message is_error (run events s))).timeouts ≡ [])
run-show-wait events message is_error time s h =
    show-wait message is_error time (run events s) (run events s).timeouts refl
      (run-Tracked events s h)
