-- ===== src/Dashboard/Settings/Apply.antt =====
-- What becomes of an edit that is refused.
use strom.Prelude.{
  ℕ, ◌+◌, String, Text, ◌≡◌, refl, ◌∙◌, true, Option, none, some, List, [], ◌∷◌, arith, codes, ◌++◌,
}
use strom.Dashboard.Store.{
  Variable, Detail, Control, View, Panel, shown, view, Reply, ok, failed, Store, show_toast,
  load_begin, load_end,
}
use strom.Dashboard.Settings.{trim, controls_of, find_control, find_variable}
use strom.Dashboard.Settings.Loop.{
  disabled_bar, Run, idle, applied_toast, load_current, finish, set_writable_variable, advance,
  answer, apply_begin, answer_all, apply_dirty_variables,
}

-- An agent that refuses every setting.
abbrev pub refuse : Text → String → Text → Reply (Unit {0})
refuse text name value = failed text

module _ {R : Type 0} where
  -- Every edited name is one that the detail and the page have.
  abbrev pub AreShown : Option (Detail R) → Panel R → List String → Type 0
  AreShown d panel [] = Unit
  AreShown d panel (name ∷ names) =
      ((v : Variable) × (find_variable name d ≡ some v))
      × ((c : Control) × (find_control name panel ≡ some c))
      × AreShown d panel names

  applied_toast-dirty : (n : ℕ) (s : Store R) → (applied_toast n s).dirty ≡ s.dirty
  applied_toast-dirty n s = ground arith

  load_current-dirty : (o : Option String) (s : Store R) → (load_current o s).dirty ≡ s.dirty
  unfolding load_begin
  load_current-dirty none s = refl
  load_current-dirty (some ups) s = refl

  advance-shown :
      (name : String) (names : List String) (d : Detail R) (v : Variable) (c : Control) (r : Run R)
      → r.store.detail ≡ some d
      → find_variable name (some d) ≡ some v
      → find_control name r.store.panel ≡ some c
      → advance (name ∷ names) r ≡ set_writable_variable name names v (trim c.value) r
  unfolding advance
  advance-shown name names d v c r e f g = simp (e, f, g)

  -- The loop after a request that was refused.
  abbrev after_refusal : Text → String → List String → Variable → Text → Run R → Run R
  after_refusal text name names v value r =
      let q = set_writable_variable name names v value r in
      record q {
        store = show_toast (codes v.name ++ codes ": " ++ text) true q.store;
        waiting = none;
        failures = q.failures + 1;
      }

  answer_all-refused :
      (text : Text) (name : String) (names : List String) (v : Variable) (value : Text) (r : Run R)
      → answer_all (refuse text) (name ∷ names) (set_writable_variable name names v value r)
        ≡ answer_all (refuse text) names (advance names (after_refusal text name names v value r))
  unfolding answer
  answer_all-refused text name names v value r = refl

  advance-finish : (r : Run R) → advance [] r ≡ finish r
  unfolding advance
  advance-finish r = refl

  advance-refused :
      (text : Text) (names : List String) (d : Detail R) (r : Run R)
      → r.store.detail ≡ some d
      → AreShown (some d) r.store.panel names
      → (answer_all (refuse text) names (advance names r)).store.dirty ≡ r.store.dirty
  advance-refused text [] d r e h = rw (advance-finish r) (
      load_current-dirty r.store.selected (applied_toast r.succeeded r.store)
      ∙ applied_toast-dirty r.succeeded r.store)
  advance-refused text (name ∷ names) d r e ((v, hv), (c, hc), h) =
      rw
        (
          advance-shown name names d v c r e hv hc,
          answer_all-refused text name names v (trim c.value) r,
        )
        (advance-refused text names d (after_refusal text name names v (trim c.value) r) e h)

  -- The page with detail `d` of the selected UPS, and unapplied edits.
  abbrev pub editing : String → Detail R → View R → List String → Store R → Store R
  editing ups d v names s = record s {
    selected = some ups;
    detail = some d;
    dirty = names;
    panel = shown v;
  }

  -- Edits that the agent refuses stay unapplied edits after the requests; but the reload that
  -- follows, once its reply is in, drops them, and the controls show the agent's values again.
  pub refused-lost :
      (text : Text) (ups name : String) (d d' : Detail R) (v : View R) (names : List String)
      (s : Store R)
      → AreShown (some d) (shown v) (name ∷ names)
      → ((apply_dirty_variables (refuse text) (editing ups d v (name ∷ names) s)).dirty
          ≡ name ∷ names)
        × ((load_end true ups
              (ok d')
              (apply_dirty_variables (refuse text) (editing ups d v (name ∷ names) s))).dirty
            ≡ [])
        × (controls_of
              (load_end true ups
                (ok d')
                (apply_dirty_variables (refuse text) (editing ups d v (name ∷ names) s))).panel
            ≡ (view d').controls)
  unfolding apply_dirty_variables apply_begin load_end
  refused-lost text ups name d d' v names s h =
      let r : Run R =
        idle (editing ups d (record v { bar = disabled_bar v.bar }) (name ∷ names) s) in
      (advance-refused text (name ∷ names) d r refl h, refl, refl)
