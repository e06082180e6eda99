-- ===== src/Dashboard/MetricDetail/Laws.antt =====
-- The refresh timer, as long as the user waits for each selection.
use strom.Prelude.{ℕ, ◌<◌, ◌≤◌, ◌≡◌, Bool, Option, none, some, List, [], ◌∷◌, arith}
use strom.Dashboard.MetricDetail.{
  Metric, MetricWindow, DetailState, select_end, open_metric_detail_modal, click_close, click_modal,
  press_key, click_window,
}

-- Exactly the timer that the state knows runs.
abbrev pub timers_of : Option ℕ → List ℕ
timers_of none = []
timers_of (some handle) = handle ∷ []

pub record IsTracked (s : DetailState) : Type 0 where
  pub running : s.timers ≡ timers_of s.refresh_timer
  pub waiting : 0 < s.awaiting → s.refresh_timer ≡ none
  pub single : s.awaiting ≤ 1

-- The user opens, closes and selects only while no selection waits for its reply.
pub data Step (s : DetailState) : DetailState → Type 0 where
  open_dialog :
      (has_modal : Bool) (label : Option Metric)
      → s.awaiting ≡ 0
      → Step s (open_metric_detail_modal has_modal label s)
  select : (w : MetricWindow) → s.awaiting ≡ 0 → Step s (click_window w s)
  answer : s.awaiting ≡ 1 → Step s (select_end s)
  close : s.awaiting ≡ 0 → Step s (click_close s)
  click : (on_backdrop : Bool) → s.awaiting ≡ 0 → Step s (click_modal on_backdrop s)
  press : (is_escape : Bool) → s.awaiting ≡ 0 → Step s (press_key is_escape s)

pub data Session (s₀ : DetailState) : DetailState → Type 0 where
  start : Session s₀ s₀
  next : {s t : DetailState} → Session s₀ s → Step s t → Session s₀ t

Step-IsTracked : {s t : DetailState} → Step s t → IsTracked s → IsTracked t
unfolding open_metric_detail_modal click_window select_end click_close click_modal press_key
Step-IsTracked (open_dialog b none h) v = ground arith
Step-IsTracked (open_dialog b (some label) h) v = ground arith
Step-IsTracked (select w h) v = ground arith
Step-IsTracked (answer h) v = ground arith
Step-IsTracked (close h) v = ground arith
Step-IsTracked (click b h) v = ground arith
Step-IsTracked (press b h) v = ground arith

-- If the user acts only when no selection waits for its reply, the browser never runs a refresh
-- timer other than the one that the state knows, so at most one, if that is so at first.
pub Session-IsTracked : {s₀ s : DetailState} → Session s₀ s → IsTracked s₀ → IsTracked s
Session-IsTracked start v = v
Session-IsTracked (next r st) v = Step-IsTracked st (Session-IsTracked r v)
