-- ===== src/Dashboard/Toast/Tests.antt =====
-- A second toast a second after the first.
use strom.Prelude.{◌≤◌, ◌≡◌, codes, false, none, List, [], ◌∷◌, ltb}
use strom.Dashboard.Toast.{ToastState, toast_duration, show_toast, wait}
use strom.Dashboard.Toast.Laws.{Event, show, pause, run, run-show-wait}

abbrev quiet : ToastState
quiet = record {
  text = [];
  is_visible = false;
  is_error = false;
  toast_timer = none;
  timeouts = [];
  next_handle = 1;
  clock = 0;
}

abbrev before : List Event
before = show (codes "Loaded rack.") false ∷ pause 1000 ∷ []

run-show-wait_example :
    ((wait 3000 (show_toast (codes "Saved.") false (run before quiet))).text ≡ codes "Saved.")
    × ((wait 3000 (show_toast (codes "Saved.") false (run before quiet))).is_visible
        ≡ ltb 3000 toast_duration)
    × (toast_duration ≤ 3000
        → (wait 3000 (show_toast (codes "Saved.") false (run before quiet))).timeouts ≡ [])
run-show-wait_example = run-show-wait before (codes "Saved.") false 3000 quiet tt
