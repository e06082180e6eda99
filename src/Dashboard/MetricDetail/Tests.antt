-- ===== src/Dashboard/MetricDetail/Tests.antt =====
-- Sessions with the metric dialog.
use strom.Prelude.{ℕ, ◌≡◌, refl, true, false, none, some, [], ◌∷◌, arith}
use strom.Dashboard.MetricDetail.{
  cpu_usage, ten_minutes, one_hour, DetailState, select_begin, select_end, open_metric_detail_modal,
  close_metric_detail_modal, press_key, click_window, is_active_button, LongHistory,
  refresh_metric_history_long,
}
use strom.Dashboard.Store.{failed}
use strom.Dashboard.MetricDetail.Laws.{
  IsTracked, Session, start, next, open_dialog, select, answer, press, Session-IsTracked,
}
use strom.Dashboard.MetricDetail.Leak.{close-select_end}

abbrev closed : DetailState
closed = record {
  label = none;
  metric_window = ten_minutes;
  modal_open = false;
  refresh_timer = none;
  timers = [];
  next_handle = 1;
  awaiting = 0;
}

closed-IsTracked : IsTracked closed
closed-IsTracked = record { running = refl; waiting = λ h. refl; single = omega arith }

-- The dialog is opened, an hour is selected, and the dialog is closed by Escape after
-- the reply.
abbrev patient : DetailState
patient =
    press_key true
      (select_end (click_window one_hour (open_metric_detail_modal true (some cpu_usage) closed)))

session : Session closed patient
unfolding open_metric_detail_modal click_window select_end
session =
    next
      (next (next (next start (open_dialog true (some cpu_usage) refl)) (select one_hour refl))
        (answer refl))
      (press true refl)

Session-IsTracked_example : IsTracked patient
Session-IsTracked_example = Session-IsTracked session closed-IsTracked

close-select_end_test :
    ((select_end (close_metric_detail_modal (select_begin one_hour closed))).modal_open ≡ false)
    × ((select_end (close_metric_detail_modal (select_begin one_hour closed))).timers ≡ 1 ∷ [])
close-select_end_test = close-select_end one_hour closed refl refl

marked_window : is_active_button one_hour patient ≡ true
unfolding is_active_button open_metric_detail_modal click_window select_end press_key
marked_window = refl

abbrev history : LongHistory ℕ
history = record { metric_history_long = 7 ∷ []; metric_history_long_fetched_at = 5; toast = none }

-- After a failure the samples stay.
failure_kept : (refresh_metric_history_long 9 (failed []) history).metric_history_long ≡ 7 ∷ []
unfolding refresh_metric_history_long
failure_kept = refl
