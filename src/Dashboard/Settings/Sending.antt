-- ===== src/Dashboard/Settings/Sending.antt =====
-- What the loop of `applyDirtyVariables` sends while other events change the page.
use strom.Prelude.{
  ℕ, suc, ◌+◌, String, str_eq, ◌≡◌, refl, ap, sym, ◌∙◌, Option, none, some, List, [], ◌∷◌, ◌++◌,
  append_assoc, append-nil, arith, length, any, find, ◌==◌, subst, Bool-cases, inl, inr,
}
use strom.Dashboard.Store.{
  Variable, Detail, Control, Request, get_detail, post_setvar, Store, load_begin,
}
use strom.Dashboard.Settings.{trim, controls_of}
use strom.Dashboard.Settings.Loop.{
  Waiting, Run, selected_text, applied_toast, load_current, visit, at_name, drop_edit, advance,
}
use strom.Dashboard.Settings.Requests.{
  requests, all_requests, request_at, value_of-find, any-none, any-some, no_value,
}

one_more : (k : ℕ) → 1 + k ≡ suc k
one_more k = omega arith

abbrev pub waits : Option Waiting → ℕ
waits none = 0
waits (some w) = 1

module _ {R : Type 0} where
  abbrev pub writable_of : Option (Detail R) → Option (List Variable)
  writable_of none = none
  writable_of (some d) = some d.writable

module _ {R : Type 0} (ups : String) (variables : List Variable) (controls : List Control) where
  -- The parts of the page that the loop reads.
  pub record IsUnchanged (s : Store R) : Type 0 where
    pub selected : s.selected ≡ some ups
    pub writable : writable_of s.detail ≡ some variables
    pub inputs : controls_of s.panel ≡ controls

  -- What a waiting loop has still to send: the rest of its names, and the reload.
  abbrev pub still_to_send : Run R → Option Waiting → List Request
  still_to_send r none = []
  still_to_send r (some w) = requests ups variables controls r.left ++ get_detail ups ∷ []

  -- With `sent` sent and `count` counted before the loop over `names`: what has been sent and what is
  -- still to be sent is exactly what was asked for, in its order, and each request is counted once.
  pub record IsApplying (sent : List Request) (count : ℕ) (names : List String) (r : Run R)
      : Type 0 where
    pub settings : IsUnchanged (r.store)
    pub requested :
        r.store.sent ++ still_to_send r r.waiting
        ≡ sent ++ all_requests ups variables controls names
    pub counted :
        r.succeeded
          + r.failures
          + (waits r.waiting + length (requests ups variables controls r.left))
        ≡ count + length (requests ups variables controls names)

  toast-IsUnchanged : (n : ℕ) (s : Store R) → IsUnchanged s → IsUnchanged (applied_toast n s)
  toast-IsUnchanged n s h = elim (Bool-cases (n == 0)) [
    | inl e ↦ rw e h
    | inr e ↦ rw e (record { selected = h.selected; writable = h.writable; inputs = h.inputs })
  ]

  toast-sent : (n : ℕ) (s : Store R) → (applied_toast n s).sent ≡ s.sent
  toast-sent n s = ground arith

  load_current-IsUnchanged : (s : Store R) → IsUnchanged s → IsUnchanged (load_current (some ups) s)
  unfolding load_begin
  load_current-IsUnchanged s h = record {
    selected = refl;
    writable = h.writable;
    inputs = h.inputs;
  }

  load_current-sent :
      (s : Store R) → (load_current (some ups) s).sent ≡ s.sent ++ get_detail ups ∷ []
  unfolding load_begin
  load_current-sent s = refl

  abbrev finish_with : Option String → Run R → Run R
  finish_with selected r = record r {
    store = load_current selected (applied_toast r.succeeded r.store);
    left = [];
    waiting = none;
  }

  finish-IsApplying :
      (r : Run R)
      → IsUnchanged (r.store)
      → IsApplying r.store.sent (r.succeeded + r.failures) [] (finish_with (some ups) r)
  finish-IsApplying r h = record {
    settings = load_current-IsUnchanged _ (toast-IsUnchanged r.succeeded r.store h);
    requested =
        append-nil _
        ∙ load_current-sent (applied_toast r.succeeded r.store)
        ∙ ap (λ sent. sent ++ get_detail ups ∷ []) (toast-sent r.succeeded r.store);
    counted = omega arith;
  }

  skipped-IsApplying :
      (sent : List Request) (count : ℕ) (name : String) (names : List String) (r : Run R)
      → request_at ups variables controls name ≡ []
      → IsApplying sent count names r
      → IsApplying sent count (name ∷ names) r
  skipped-IsApplying sent count name names r e h = record {
    settings = h.settings;
    requested =
        h.requested
        ∙ ap (λ q. sent ++ ((q ++ requests ups variables controls names) ++ get_detail ups ∷ []))
            (sym e);
    counted =
        h.counted ∙ ap (λ q. count + length (q ++ requests ups variables controls names)) (sym e);
  }

  visit-IsApplying :
      (name : String) (names : List String) (v : Option Variable) (c : Option Control)
      (later r : Run R)
      → v ≡ find (λ variable. str_eq variable.name name) variables
      → c ≡ find (λ control. str_eq name control.name) controls
      → IsUnchanged (r.store)
      → IsApplying r.store.sent (r.succeeded + r.failures) names later
      → IsApplying r.store.sent
          (r.succeeded + r.failures)
          (name ∷ names)
          (visit name names v c later r)
  visit-IsApplying name names (some v) (some c) later r ev ec h k =
      let found = any-some name variables v (sym ev) in
      let same : request_at ups variables controls name
          ≡ post_setvar (selected_text r.store.selected) v.name (trim c.value) ∷ [] =
        rw (found.0, found.1, value_of-find name controls, ← ec, h.selected) refl in
      record {
        settings = record { selected = h.selected; writable = h.writable; inputs = h.inputs };
        requested =
            append_assoc r.store.sent
              (post_setvar (selected_text r.store.selected) v.name (trim c.value) ∷ [])
              (all_requests ups variables controls names)
            ∙ ap
                (λ q.
                  r.store.sent
                  ++ ((q ++ requests ups variables controls names) ++ get_detail ups ∷ []))
                (sym same);
        counted =
            ap (λ k. r.succeeded + r.failures + k)
              (one_more (length (requests ups variables controls names)))
            ∙ ap
                (λ q.
                  r.succeeded + r.failures + length (q ++ requests ups variables controls names))
                (sym same);
      }
  visit-IsApplying name names (some v) none later r ev ec h k =
      skipped-IsApplying _ _ name names later
        (rw (value_of-find name controls, ← ec)
          (no_value ups variables controls name
            (any (λ variable. str_eq variable.name name) variables)))
        k
  visit-IsApplying name names none c later r ev ec h k =
      skipped-IsApplying _ _ name names later (rw (any-none name variables (sym ev)) refl) k

  at_name-IsApplying :
      (name : String) (names : List String) (d : Option (Detail R)) (later r : Run R)
      → writable_of d ≡ some variables
      → IsUnchanged (r.store)
      → IsApplying r.store.sent (r.succeeded + r.failures) names later
      → IsApplying r.store.sent
          (r.succeeded + r.failures)
          (name ∷ names)
          (at_name name names d later r)
  at_name-IsApplying name names none later r e h k = cc
  at_name-IsApplying name names (some d) later r e h k =
      let same : d.writable ≡ variables = cc in
      visit-IsApplying name names _ _ later r
        (ap (λ vs. find (λ variable. str_eq variable.name name) vs) same)
        (ap (λ cs. find (λ control. str_eq name control.name) cs) h.inputs) h k

  advance-finish : (r : Run R) → advance [] r ≡ finish_with r.store.selected r
  unfolding advance
  advance-finish r = refl

  advance-step :
      (name : String) (names : List String) (r : Run R)
      → advance (name ∷ names) r
        ≡ at_name name names r.store.detail (advance names (drop_edit name r)) r
  unfolding advance
  advance-step name names r = refl

  pub advance-IsApplying :
      (names : List String) (r : Run R)
      → IsUnchanged (r.store)
      → IsApplying r.store.sent (r.succeeded + r.failures) names (advance names r)
  advance-IsApplying [] r h =
      subst (IsApplying r.store.sent (r.succeeded + r.failures) [])
        (sym (advance-finish r ∙ ap (λ o. finish_with o r) h.selected)) (finish-IsApplying r h)
  advance-IsApplying (name ∷ names) r h =
      subst (IsApplying r.store.sent (r.succeeded + r.failures) (name ∷ names))
        (sym (advance-step name names r))
        (at_name-IsApplying name names r.store.detail _ r h.writable h (
          advance-IsApplying names (drop_edit name r)
            (record { selected = h.selected; writable = h.writable; inputs = h.inputs })))
