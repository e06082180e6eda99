-- ===== src/Dashboard/Settings/Interleaving.antt =====
-- Applying the edited settings, with replies and other events in any order.
use strom.Prelude.{String, ◌≡◌, List}
use strom.Dashboard.Store.{Variable, Control, Reply, Store}
use strom.Dashboard.Settings.Loop.{Run, answer, apply_begin}
use strom.Dashboard.Settings.Sending.{IsUnchanged}

module _ {R : Type 0} (ups : String) (variables : List Variable) (controls : List Control) where
  -- The reply to the request that the loop waits for; or a change of the page that sends nothing and
  -- keeps the selected UPS, its writable variables and what is in their controls.
  pub data Step (r : Run R) : Run R → Type 0 where
    answered : (reply : Reply (Unit {0})) → Step r (answer reply r)
    changed :
        (s : Store R)
        → IsUnchanged ups variables controls s
        → s.sent ≡ r.store.sent
        → Step r (record r { store = s })

  pub data Session (s₀ : Store R) : Run R → Type 0 where
    start : Session s₀ (apply_begin s₀)
    next : {q r : Run R} → Session s₀ q → Step q r → Session s₀ r
