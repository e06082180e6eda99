-- ===== src/Dashboard/MetricDetail/Leak.antt =====
-- What happens to the refresh timer if the user does not wait.
use strom.Prelude.{◌+◌, ◌≡◌, false, none, [], ◌∷◌, arith}
use strom.Dashboard.MetricDetail.{
  MetricWindow, is_live, DetailState, select_begin, select_end, close_metric_detail_modal,
}

-- If the dialog is closed while a wide window waits for its history, the reply starts a timer that
-- runs although the dialog is closed.
pub close-select_end :
    (w : MetricWindow) (s : DetailState)
    → is_live w ≡ false
    → s.timers ≡ []
    → ((select_end (close_metric_detail_modal (select_begin w s))).modal_open ≡ false)
      × ((select_end (close_metric_detail_modal (select_begin w s))).timers ≡ s.next_handle ∷ [])
unfolding select_begin select_end close_metric_detail_modal
close-select_end w s wide quiet = ground arith

-- Two windows are selected before the first reply is in.
abbrev pub twice : MetricWindow → MetricWindow → DetailState → DetailState
twice v w s = select_end (select_end (select_begin w (select_begin v s)))

-- If two wide windows are selected before the first reply is in, two timers run, and closing the
-- dialog stops only the second one.
pub select_twice :
    (v w : MetricWindow) (s : DetailState)
    → is_live v ≡ false
    → is_live w ≡ false
    → s.timers ≡ []
    → ((twice v w s).timers ≡ (s.next_handle + 1) ∷ s.next_handle ∷ [])
      × ((close_metric_detail_modal (twice v w s)).refresh_timer ≡ none)
      × ((close_metric_detail_modal (twice v w s)).timers ≡ s.next_handle ∷ [])
unfolding select_begin select_end close_metric_detail_modal
select_twice v w s wide wide' quiet = ground arith
