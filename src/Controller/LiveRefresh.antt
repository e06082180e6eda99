-- ===== src/Controller/LiveRefresh.antt =====
-- controller/web/src/hooks/useLiveRefresh.ts: an interval that runs while the tab is visible. The
-- browser's interval timers and the listener are part of the state.
pub mod Laws
mod Tests
use strom.Prelude.{
  ℕ, ◌+◌, Bool, true, false, not, Option, none, some, List, [], ◌∷◌, ◌==◌, if◌then◌else◌, keep,
}

-- `mounted` says that the effect has run and its cleanup has not; `refreshes` counts the calls of
-- `refresh` that `handleVisibilityChange` makes.
pub record Refresher : Type 0 where
  pub enabled : Bool
  pub hidden : Bool
  pub mounted : Bool
  pub interval_id : Option ℕ
  pub timers : List ℕ
  pub next_handle : ℕ
  pub listening : Bool
  pub refreshes : ℕ

abbrev start_if : Option ℕ → Refresher → Refresher
start_if (some handle) r = r
start_if none r = record r {
  interval_id = some r.next_handle;
  timers = r.next_handle ∷ r.timers;
  next_handle = r.next_handle + 1;
}

unfoldable pub start : Refresher → Refresher
start r = start_if r.interval_id r

abbrev stop_if : Option ℕ → Refresher → Refresher
stop_if none r = r
stop_if (some handle) r = record r {
  timers = keep (λ other. not (other == handle)) r.timers;
  interval_id = none;
}

unfoldable pub stop : Refresher → Refresher
stop r = stop_if r.interval_id r

abbrev react : Refresher → Refresher
react r = if r.hidden then stop r else start (record r { refreshes = r.refreshes + 1 })

-- `document.hidden` changes; the listener runs if it is there.
unfoldable pub handle_visibility_change : Bool → Refresher → Refresher
unfolding start stop
handle_visibility_change hidden r =
    if r.listening then react (record r { hidden = hidden }) else record r { hidden = hidden }

abbrev begin_effect : Refresher → Refresher
begin_effect r =
    let r' = if r.hidden then r else start r in record r' { listening = true; mounted = true }

-- The effect, and its cleanup. `intervalId` is a new variable in each run of the effect.
unfoldable pub run_effect : Bool → Refresher → Refresher
unfolding start
run_effect enabled r =
    if enabled
    then begin_effect (record r { enabled = true; interval_id = none })
    else record r { enabled = false; interval_id = none; mounted = true }

unfoldable pub cleanup : Refresher → Refresher
unfolding stop
cleanup r =
    if r.enabled
    then record (stop r) { listening = false; mounted = false }
    else record r { mounted = false }
