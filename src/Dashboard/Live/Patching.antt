-- ===== src/Dashboard/Live/Patching.antt =====
-- What live updates patch in a rendered detail is what a new render of the stored detail would show.
use strom.Prelude.{
  String, str_eq, Text, ◌≡◌, refl, Bool, true, false, Option, none, some, inl, inr, List, [], ◌∷◌,
  Bool-cases,
}
use strom.Dashboard.Store.{
  Ups, Detail, View, Panel, message, shown, Control, Reply, ok, failed, Store, view,
  render_ups_grid, render_empty_detail, update_settings_apply_button, load_begin, load_end,
}
use strom.Dashboard.Settings.{find_control, handle_control, handle_variable_input_change}
use strom.Dashboard.Live.{
  is_listed, patch_detail, update_detail_metrics, find_selected, update_match, select_first,
  update_live_ups_data, select_if_none, keep_listed, load_selected, refresh_with, refresh_failed,
  refresh_done,
}

module _ {R : Type 0} where
  -- Everything but the controls and their bar.
  pub record HasHeaderOf (v w : View R) : Type 0 where
    pub name : v.name ≡ w.name
    pub title : v.title ≡ w.title
    pub status : v.status ≡ w.status
    pub chip : v.chip ≡ w.chip
    pub reading : v.reading ≡ w.reading

  -- A panel without a message shows the stored detail.
  abbrev pub Shows : Option (Detail R) → Panel R → Type 0
  Shows d (message text) = Unit
  Shows none (shown v) = ⊥
  Shows (some d) (shown v) = HasHeaderOf v (view d)

  abbrev pub IsPatched : Store R → Type 0
  IsPatched s = Shows s.detail s.panel

  pub data Step (s : Store R) : Store R → Type 0 where
    select : (name : String) → Step s (load_begin name s)
    loaded :
        (silent : Bool) (name : String) (reply : Reply (Detail R))
        → Step s (load_end silent name reply s)
    live : (upses : List (Ups R)) → Step s (update_live_ups_data upses s)
    refresh : (preserve : Bool) (upses : List (Ups R)) → Step s (refresh_with preserve upses s)
    refresh_missed : (text : Text) → Step s (refresh_failed text s)
    refresh_over : (silent : Bool) → Step s (refresh_done silent s)
    type_value : (name : String) (value : Text) → Step s (handle_variable_input_change name value s)

  -- The store with a given detail and panel.
  abbrev with_panel : Option (Detail R) → Panel R → Store R → Store R
  with_panel d p s = record s { detail = d; panel = p }

  patch-Shows :
      (m : Ups R) (d : Option (Detail R)) (p : Panel R) (s : Store R)
      → Shows d p
      → IsPatched (patch_detail m d (with_panel d p s))
  patch-Shows m none p s h = h
  patch-Shows m (some d) (message text) s h = elim (Bool-cases (str_eq d.name m.name)) [
    | inl b ↦ rw b tt
    | inr b ↦ rw b tt
  ]
  patch-Shows m (some d) (shown v) s h = elim (Bool-cases (str_eq d.name m.name)) [
    | inl b ↦ rw b (
        unfold view in
        record { name = h.name; title = h.title; status = refl; chip = refl; reading = refl })
    | inr b ↦ rw b h
  ]

  match-Shows :
      (o : Option (Ups R)) (d : Option (Detail R)) (p : Panel R) (s : Store R)
      → Shows d p
      → IsPatched (update_match o (with_panel d p s))
  match-Shows none d p s h = h
  match-Shows (some m) d p s h = unfold update_detail_metrics in patch-Shows m d p s h

  first-Shows :
      (upses : List (Ups R)) (s : Store R) → IsPatched s → IsPatched (select_first upses s)
  first-Shows [] s h = unfold render_empty_detail in tt
  first-Shows (ups ∷ upses) s h = unfold load_begin in h

  live-Shows :
      (upses : List (Ups R)) (s : Store R) → IsPatched s → IsPatched (update_live_ups_data upses s)
  unfolding update_live_ups_data render_ups_grid
  live-Shows upses s h =
      let s' : Store R = render_ups_grid (record s { upses = upses }) in
      elim (Bool-cases (is_listed s.selected upses)) [
        | inl b ↦ rw b (match-Shows (find_selected s.selected upses) s'.detail s'.panel s' h)
        | inr b ↦ rw b (first-Shows upses s' h)
      ]

  refresh-Shows :
      (selected : Option String) (s : Store R) → IsPatched s → IsPatched (load_selected selected s)
  refresh-Shows none s h = unfold render_empty_detail in tt
  refresh-Shows (some name) s h = unfold load_begin in h

  control-Shows :
      (name : String) (value : Text) (o : Option Control) (d : Option (Detail R)) (p : Panel R)
      (s : Store R)
      → Shows d p
      → IsPatched (handle_control name value o (with_panel d p s))
  unfolding update_settings_apply_button
  control-Shows name value none d p s h = h
  control-Shows name value (some control) d (message text) s h = tt
  control-Shows name value (some control) none (shown v) s h = absurd h
  control-Shows name value (some control) (some d) (shown v) s h = record {
    name = h.name;
    title = h.title;
    status = h.status;
    chip = h.chip;
    reading = h.reading;
  }

  loaded-Shows :
      (silent : Bool) (name : String) (d : Detail R) (s : Store R)
      → IsPatched (load_end silent name (ok d) s)
  unfolding load_end
  loaded-Shows true name d s = record {
    name = refl;
    title = refl;
    status = refl;
    chip = refl;
    reading = refl;
  }
  loaded-Shows false name d s = record {
    name = refl;
    title = refl;
    status = refl;
    chip = refl;
    reading = refl;
  }

  Step-IsPatched : {s t : Store R} → Step s t → IsPatched s → IsPatched t
  Step-IsPatched (select name) h = unfold load_begin in h
  Step-IsPatched {s} (loaded silent name (ok d)) h = loaded-Shows silent name d s
  Step-IsPatched (loaded silent name (failed text)) h = unfold load_end in tt
  Step-IsPatched {s} (live upses) h = live-Shows upses s h
  Step-IsPatched {s} (refresh preserve upses) h =
      unfold refresh_with in
      refresh-Shows (keep_listed preserve (select_if_none s.selected upses) upses)
        (render_ups_grid (record s {
          upses = upses;
          selected = keep_listed preserve (select_if_none s.selected upses) upses;
        }))
        (unfold render_ups_grid in h)
  Step-IsPatched (refresh_missed text) h = unfold refresh_failed in h
  Step-IsPatched (refresh_over true) h = unfold refresh_done in h
  Step-IsPatched (refresh_over false) h = unfold refresh_done in h
  Step-IsPatched {s} (type_value name value) h =
      unfold handle_variable_input_change in
      control-Shows name value (find_control name s.panel) s.detail s.panel s h

  pub data Session (s₀ : Store R) : Store R → Type 0 where
    start : Session s₀ s₀
    next : {s t : Store R} → Session s₀ s → Step s t → Session s₀ t

  -- Whatever is selected, typed and reloaded, and whatever replies and lists come in, in any order: a
  -- panel that shows a detail goes on showing the name, title, status, chip and readings that a new
  -- render of the stored detail would show, if it does so at first.
  pub Session-IsPatched : {s₀ s : Store R} → Session s₀ s → IsPatched s₀ → IsPatched s
  Session-IsPatched start h = h
  Session-IsPatched (next r st) h = Step-IsPatched st (Session-IsPatched r h)
