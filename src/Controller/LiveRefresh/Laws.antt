-- ===== src/Controller/LiveRefresh/Laws.antt =====
-- The interval runs exactly while it should.
use strom.Prelude.{
  ℕ, ◌+◌, ◌≡◌, Bool, true, false, not, ◌&&◌, Option, none, some, List, [], ◌∷◌, arith,
  if◌then◌else◌,
}
use strom.Controller.LiveRefresh.{Refresher, handle_visibility_change, run_effect, cleanup}

abbrev pub timers_of : Option ℕ → List ℕ
timers_of none = []
timers_of (some handle) = handle ∷ []

abbrev pub is_some : Option ℕ → Bool
is_some none = false
is_some (some handle) = true

pub record IsSteady (r : Refresher) : Type 0 where
  pub tracked : r.timers ≡ timers_of r.interval_id
  pub listens : r.listening ≡ (r.mounted && r.enabled)
  pub runs : is_some r.interval_id ≡ (r.mounted && r.enabled && not r.hidden)

-- React runs the effect when the component is mounted, the cleanup and the effect again when
-- `intervalMs` or `enabled` change, and the cleanup when the component goes.
pub data Step (r : Refresher) : Refresher → Type 0 where
  mount : (enabled : Bool) → r.mounted ≡ false → Step r (run_effect enabled r)
  unmount : r.mounted ≡ true → Step r (cleanup r)
  change : (hidden : Bool) → Step r (handle_visibility_change hidden r)

pub data Session (r₀ : Refresher) : Refresher → Type 0 where
  begin : Session r₀ r₀
  next : {r t : Refresher} → Session r₀ r → Step r t → Session r₀ t

Step-IsSteady : {r t : Refresher} → Step r t → IsSteady r → IsSteady t
unfolding run_effect cleanup handle_visibility_change
Step-IsSteady (mount enabled h) v = ground arith
Step-IsSteady (unmount h) v = ground arith
Step-IsSteady (change hidden) v = ground arith

-- In every session that starts so, however the tab is hidden and shown and the component mounted,
-- changed and unmounted, the browser runs exactly the interval that the hook knows, and runs one
-- exactly while the hook is mounted, enabled and the tab visible.
pub Session-IsSteady : {r₀ r : Refresher} → Session r₀ r → IsSteady r₀ → IsSteady r
Session-IsSteady begin v = v
Session-IsSteady (next s st) v = Step-IsSteady st (Session-IsSteady s v)

-- When a listening tab becomes visible, exactly one refresh runs at once; when it is hidden, none.
pub handle_visibility-refreshes :
    (hidden : Bool) (r : Refresher)
    → r.listening ≡ true
    → (handle_visibility_change hidden r).refreshes
      ≡ (if hidden then r.refreshes else r.refreshes + 1)
unfolding handle_visibility_change
handle_visibility-refreshes hidden r l = ground arith
