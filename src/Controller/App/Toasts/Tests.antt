-- ===== src/Controller/App/Toasts/Tests.antt =====
-- Toasts with a Snackbar that counts the time since its last render.
use strom.Prelude.{ℕ, ◌+◌, codes, ◌≡◌, refl, Bool, false, Option, none, some, List, [], ◌∷◌, leb}
use strom.Controller.App.Toasts.{
  success, error, ToastRequest, clickaway, Snackbar, Page, Event, show, close, press_close, pass,
  run, handle, auto_hide_duration,
}
use strom.Controller.App.Toasts.Laws.{run-error}

record Timer : Type 0 where
  ms : Option ℕ
  elapsed : ℕ

abbrev is_over : Option ℕ → ℕ → Bool
is_over none elapsed = false
is_over (some ms) elapsed = leb ms elapsed

is_over-none : (t : Timer) → t.ms ≡ none → is_over t.ms t.elapsed ≡ false
is_over-none t h = rw h refl

abbrev simple : Snackbar Timer
simple = record {
  render = λ is_open ms t. record { ms = ms; elapsed = 0 };
  elapse = λ time t. record t { elapsed = t.elapsed + time };
  duration = λ t. t.ms;
  fires = λ t. is_over t.ms t.elapsed;
  duration-render = λ is_open ms t. refl;
  duration-elapse = λ time t. refl;
  fires_none = is_over-none;
}

abbrev start : Page Timer
start = record { toast = none; bar = record { ms = none; elapsed = 0 } }

abbrev failed : Page Timer
failed = record {
  toast = some (record { message = codes "Update failed."; severity = error });
  bar = record { ms = none; elapsed = 0 };
}

abbrev saved : ToastRequest
saved = record { message = codes "Saved."; severity = success }

success_shown :
    (run simple (show (codes "Saved.") success ∷ pass 3199 ∷ []) start).toast ≡ some saved
unfolding handle codes
success_shown = refl

success_hidden : (run simple (show (codes "Saved.") success ∷ pass 3200 ∷ []) start).toast ≡ none
unfolding handle codes
success_hidden = refl

-- A later toast takes the place of an error that nobody has dismissed.
error_replaced :
    (run simple (pass 10 ∷ show (codes "Saved.") success ∷ pass 3200 ∷ []) failed).toast ≡ none
unfolding handle codes
error_replaced = refl

error_dismissed : (run simple (close clickaway ∷ press_close ∷ []) failed).toast ≡ none
unfolding handle
error_dismissed = refl

abbrev quiet : List Event
quiet = pass 60_000 ∷ close clickaway ∷ pass 60_000 ∷ []

run-error_example : (run simple quiet failed).toast ≡ failed.toast
unfolding auto_hide_duration
run-error_example =
    run-error simple quiet (codes "Update failed.") failed (refl, (refl, (refl, tt))) refl refl
