-- ===== src/Dashboard/MetricDetail.antt =====
-- The metric detail dialog of agent/internal/api/web/app.js: its label, its time window, and the
-- timer that refreshes the long history. The browser's interval timers are part of the state.
pub mod Laws
pub mod Leak
mod Tests
use strom.Prelude.{
  ℕ, ◌+◌, ◌-◌, String, Text, Bool, true, false, not, ◌&&◌, Option, none, some, List, [], ◌∷◌, ◌==◌,
  if◌then◌else◌, keep,
}
use strom.Dashboard.Store.{Reply, ok, failed}

-- The labels with an entry in `TREND_EXTRACTORS`; `metric_window` is `data-metric-window`.
pub data Metric : Type 0 where
  cpu_usage cpu_temp memory_used disk_free : Metric

pub data MetricWindow : Type 0 where
  ten_minutes one_hour six_hours one_day : MetricWindow

abbrev window_index : MetricWindow → ℕ
window_index ten_minutes = 0
window_index one_hour = 1
window_index six_hours = 2
window_index one_day = 3

-- `timers` are the intervals that run, by their handles; `awaiting` counts the calls of
-- `selectMetricDetailWindow` that wait for the long history.
pub record DetailState : Type 0 where
  pub label : Option Metric
  pub metric_window : MetricWindow
  pub modal_open : Bool
  pub refresh_timer : Option ℕ
  pub timers : List ℕ
  pub next_handle : ℕ
  pub awaiting : ℕ

abbrev clear_interval : ℕ → List ℕ → List ℕ
clear_interval handle = keep (λ other. not (other == handle))

abbrev clear_handle : Option ℕ → List ℕ → List ℕ
clear_handle none timers = timers
clear_handle (some handle) timers = clear_interval handle timers

abbrev clear_timer : DetailState → DetailState
clear_timer s = record s { timers = clear_handle s.refresh_timer s.timers; refresh_timer = none }

abbrev pub is_live : MetricWindow → Bool
is_live ten_minutes = true
is_live _ = false

-- `selectMetricDetailWindow` up to its `await`. The live window has none.
unfoldable pub select_begin : MetricWindow → DetailState → DetailState
select_begin metric_window s =
    let s' = clear_timer (record s { metric_window = metric_window }) in
    if is_live metric_window then s' else record s' { awaiting = s'.awaiting + 1 }

-- The rest of `selectMetricDetailWindow`, when the request has been answered, well or not.
unfoldable pub select_end : DetailState → DetailState
select_end s = record s {
  awaiting = s.awaiting - 1;
  refresh_timer = some s.next_handle;
  timers = s.next_handle ∷ s.timers;
  next_handle = s.next_handle + 1;
}

-- Up to the `await` of the selection that it ends with. `has_modal` is `els.metricDetailModal`.
unfoldable pub open_metric_detail_modal : Bool → Option Metric → DetailState → DetailState
unfolding select_begin
open_metric_detail_modal has_modal none s = s
open_metric_detail_modal has_modal (some label) s =
    if has_modal
    then select_begin s.metric_window (record s { label = some label; modal_open = true })
    else s

unfoldable pub close_metric_detail_modal : DetailState → DetailState
close_metric_detail_modal s = clear_timer (record s { modal_open = false; label = none })

-- The listeners: the button that closes, a click in the dialog (`on_backdrop` if its target is the
-- dialog itself), the key Escape, and the buttons of the windows. `is_escape` is `key === "Escape"`.
unfoldable pub click_close : DetailState → DetailState
unfolding close_metric_detail_modal
click_close s = close_metric_detail_modal s

unfoldable pub click_modal : Bool → DetailState → DetailState
unfolding close_metric_detail_modal
click_modal on_backdrop s = if on_backdrop then close_metric_detail_modal s else s

unfoldable pub press_key : Bool → DetailState → DetailState
unfolding close_metric_detail_modal
press_key is_escape s = if is_escape && s.modal_open then close_metric_detail_modal s else s

unfoldable pub click_window : MetricWindow → DetailState → DetailState
unfolding select_begin
click_window metric_window s = select_begin metric_window s

-- The window whose button `selectMetricDetailWindow` marks.
unfoldable pub is_active_button : MetricWindow → DetailState → Bool
is_active_button button s = window_index button == window_index s.metric_window

-- What `refreshMetricHistoryLong` changes: `R` is the type of a sample.
pub record LongHistory (R : Type 0) : Type 0 where
  pub metric_history_long : List R
  pub metric_history_long_fetched_at : ℕ
  pub toast : Option Text

-- With its reply, at a time.
unfoldable pub refresh_metric_history_long :
    {R : Type 0} → ℕ → Reply (List R) → LongHistory R → LongHistory R
refresh_metric_history_long now (ok samples) h = record h {
  metric_history_long = samples;
  metric_history_long_fetched_at = now;
}
refresh_metric_history_long now (failed text) h = record h { toast = some text }
