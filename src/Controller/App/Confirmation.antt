-- ===== src/Controller/App/Confirmation.antt =====
-- The confirmation dialog of controller/web/src/App.tsx. A promise is a number; `answers` are the
-- promises that were resolved, with their answers. The texts of a request are left out.
pub mod Laws
use strom.Prelude.{ℕ, ◌+◌, Bool, true, false, Option, none, some, List, [], ◌∷◌, ◌++◌}

pub record Answer : Type 0 where
  pub promise : ℕ
  pub accepted : Bool

-- `resolver` is `confirmResolverRef.current`, by the promise that it resolves.
pub record Confirmation : Type 0 where
  pub is_open : Bool
  pub resolver : Option ℕ
  pub next_promise : ℕ
  pub answers : List Answer

unfoldable pub request_confirmation : Confirmation → Confirmation
request_confirmation c = record c {
  is_open = true;
  resolver = some c.next_promise;
  next_promise = c.next_promise + 1;
}

abbrev resolve : Bool → Option ℕ → Confirmation → Confirmation
resolve accepted none c = c
resolve accepted (some promise) c = record c {
  answers = c.answers ++ record { promise = promise; accepted = accepted } ∷ [];
  resolver = none;
}

unfoldable pub close_confirmation : Bool → Confirmation → Confirmation
close_confirmation accepted c = record (resolve accepted c.resolver c) { is_open = false }
