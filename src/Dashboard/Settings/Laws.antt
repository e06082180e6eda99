-- ===== src/Dashboard/Settings/Laws.antt =====
-- Which settings are marked as edited, and what applying them sends.
use strom.Prelude.{
  ℕ, String, str_eq, eq_iff, eq_refl, Text, text_eq, ◌≡◌, refl, Bool, true, false, not, Option,
  none, some, List, [], ◌∷◌, ◌++◌, map, arith, if◌then◌else◌, any, All, Bool-cases, inl, inr,
}
use strom.Dashboard.Store.{
  Variable, Detail, Control, Panel, message, shown, ok, Store, view, set_panel_bar,
  update_settings_apply_button, fresh_control, load_end,
}
use strom.Dashboard.Settings.{
  trim, add, delete, is_edited, edit_control, edit_controls, controls_of, find_control,
  handle_control, handle_variable_input_change,
}

any-append_one :
    (n m : String) (names : List String)
    → any (str_eq n) (names ++ m ∷ []) ≡ (if any (str_eq n) names then true else str_eq n m)
any-append_one n m [] = ground arith
any-append_one n m (k ∷ names) = ground (arith, any-append_one n m names)

any-add :
    (n m : String) (names : List String)
    → any (str_eq n) (add m names) ≡ (if str_eq m n then true else any (str_eq n) names)
unfolding add
any-add n m names = elim (Bool-cases (str_eq m n)) [
  | inl e ↦
      let same : m ≡ n = (eq_iff m n).0 e in
      ground (arith, any-append_one n m names, eq_iff n m, eq_refl n)
  | inr e ↦ ground (arith, any-append_one n m names, eq_iff n m, eq_iff m n)
]

any-delete :
    (n m : String) (names : List String)
    → any (str_eq n) (delete m names) ≡ (if str_eq m n then false else any (str_eq n) names)
unfolding delete
any-delete n m [] = ground arith
any-delete n m (k ∷ names) =
    ground (arith, any-delete n m names, eq_iff m k, eq_iff n k, eq_iff m n)

-- A row is marked as modified exactly if its variable is among the edited ones.
abbrev pub Marked : List String → Control → Type 0
Marked dirty control = any (str_eq control.name) dirty ≡ control.is_dirty

edit_control-Marked :
    (name : String) (value : Text) (edited : Bool) (dirty : List String) (c : Control)
    → Marked dirty c
    → Marked
        (if edited then add name dirty else delete name dirty)
        (edit_control name value edited c)
edit_control-Marked name value edited dirty c h =
    ground (arith, any-add c.name name dirty, any-delete c.name name dirty)

map-edit_control-Marked :
    (name : String) (value : Text) (edited : Bool) (dirty : List String) (cs : List Control)
    → All (Marked dirty) cs
    → All
        (Marked (if edited then add name dirty else delete name dirty))
        (map (edit_control name value edited) cs)
map-edit_control-Marked name value edited dirty [] h = tt
map-edit_control-Marked name value edited dirty (c ∷ cs) h = (
  edit_control-Marked name value edited dirty c h.0,
  map-edit_control-Marked name value edited dirty cs h.1,
)

fresh-Marked : (vs : List Variable) → All (Marked []) (map fresh_control vs)
fresh-Marked [] = tt
fresh-Marked (v ∷ vs) = (refl, fresh-Marked vs)

module _ {R : Type 0} where
  abbrev pub IsMarked : Store R → Type 0
  IsMarked s = All (Marked s.dirty) (controls_of s.panel)

  -- A detail that has been loaded has no edited variable, and no row of it is marked.
  pub load_end-IsMarked :
      (silent : Bool) (name : String) (d : Detail R) (s : Store R)
      → ((load_end silent name (ok d) s).dirty ≡ []) × IsMarked (load_end silent name (ok d) s)
  unfolding load_end view
  load_end-IsMarked true name d s = (refl, fresh-Marked d.writable)
  load_end-IsMarked false name d s = (refl, fresh-Marked d.writable)

  panel-Marked :
      (name : String) (value : Text) (edited : Bool) (dirty : List String) (panel : Panel R)
      → All (Marked dirty) (controls_of panel)
      → All
          (Marked (if edited then add name dirty else delete name dirty))
          (controls_of (edit_controls name value edited panel))
  panel-Marked name value edited dirty (message text) h = tt
  panel-Marked name value edited dirty (shown v) h =
      map-edit_control-Marked name value edited dirty v.controls h

  controls-set_panel_bar :
      (n : ℕ) (panel : Panel R) → controls_of (set_panel_bar n panel) ≡ controls_of panel
  controls-set_panel_bar n (message text) = refl
  controls-set_panel_bar n (shown v) = refl

  handle_control-IsMarked :
      (name : String) (value : Text) (o : Option Control) (s : Store R)
      → IsMarked s
      → IsMarked (handle_control name value o s)
  unfolding update_settings_apply_button
  handle_control-IsMarked name value none s h = h
  handle_control-IsMarked name value (some control) s h =
      rw (controls-set_panel_bar)
        (panel-Marked name value (is_edited value control) s.dirty s.panel h)

  -- Typing into any control keeps it so that exactly the rows of edited variables are marked.
  pub handle_change-IsMarked :
      (name : String) (value : Text) (s : Store R)
      → IsMarked s
      → IsMarked (handle_variable_input_change name value s)
  unfolding handle_variable_input_change
  handle_change-IsMarked name value s h = handle_control-IsMarked name value _ s h

  -- After typing into the control of a variable, that variable is among the edited ones exactly if
  -- the trimmed text differs from the original value.
  pub handle_change-edited :
      (name : String) (value : Text) (control : Control) (s : Store R)
      → find_control name s.panel ≡ some control
      → any (str_eq name) (handle_variable_input_change name value s).dirty
        ≡ not (text_eq (trim value) control.original)
  unfolding handle_variable_input_change update_settings_apply_button
  handle_change-edited name value control s found =
      rw (found, handle_variable_input_change)
        (ground (arith, any-add name name s.dirty, any-delete name name s.dirty, eq_refl name))
