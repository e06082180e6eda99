-- ===== src/Controller/ConfigTab/Laws.antt =====
-- What the form saves.
use mathlib.Core.List.{reverse-cons}
use strom.Prelude.{
  ◌≤◌, ◌≡◌, refl, ap, ◌∙◌, Text, false, ◌||◌, List, [], ◌∷◌, ◌++◌, reverse, length, length-append,
  arith, All, Bool-cases, inl, inr,
}
use strom.Dashboard.Settings.{trim, trim_start}
use strom.Controller.NodeDialog.{DetailValues}
use strom.Controller.ConfigTab.{
  ConfigTab, max_label_length, field_error, is_error, has_errors, handle_save, save_finally,
  type_labels,
}

length-trim_start : (t : Text) → length (trim_start t) ≤ length t
unfolding trim_start
length-trim_start [] = omega arith
length-trim_start (c ∷ t) = ground (arith, length-trim_start t)

length-reverse : (t : Text) → length (reverse t) ≡ length t
length-reverse [] = refl
length-reverse (c ∷ t) =
    ap length (reverse-cons c t)
    ∙ omega (arith, length-append (reverse t) (c ∷ []), length-reverse t)

length-trim : (t : Text) → length (trim t) ≤ length t
unfolding trim
length-trim t =
    let start : Text = trim_start t in
    omega (
      arith,
      length-trim_start t,
      length-reverse start,
      length-trim_start (reverse start),
      length-reverse (trim_start (reverse start)),
    )

abbrev pub IsShort : DetailValues → Type 0
IsShort values =
    (length values.display_name ≤ max_label_length)
    × (length values.location_label ≤ max_label_length)
    × (length values.site_label ≤ max_label_length)

field_error-short : (t : Text) → is_error (field_error t) ≡ false → length t ≤ max_label_length
unfolding field_error
field_error-short t h = ground arith

All-append_one :
    (xs : List DetailValues) (x : DetailValues)
    → All IsShort xs
    → IsShort x
    → All IsShort (xs ++ x ∷ [])
All-append_one [] x h k = (k, tt)
All-append_one (y ∷ xs) x h k = (h.0, All-append_one xs x h.1 k)

handle_save-IsShort :
    (tab : ConfigTab) → All IsShort tab.saved → All IsShort (handle_save tab).saved
unfolding handle_save has_errors
handle_save-IsShort tab h = elim (Bool-cases (has_errors tab || tab.saving)) [
  | inl e ↦ rw (e, handle_save) h
  | inr e ↦
      rw (e, handle_save)
        (All-append_one tab.saved _ h (
          omega (
            arith,
            length-trim tab.display_name,
            field_error-short tab.display_name (ground arith),
          ),
          omega (
            arith,
            length-trim tab.location_label,
            field_error-short tab.location_label (ground arith),
          ),
          omega
              (arith, length-trim tab.site_label, field_error-short tab.site_label (ground arith)),
        ))
]

-- Typing, saving and the end of a save.
pub data Step (tab : ConfigTab) : ConfigTab → Type 0 where
  type_all :
      (display_name location_label site_label : Text)
      → Step tab (type_labels display_name location_label site_label tab)
  save : Step tab (handle_save tab)
  done : Step tab (save_finally tab)

pub data Session (tab₀ : ConfigTab) : ConfigTab → Type 0 where
  start : Session tab₀ tab₀
  next : {tab after : ConfigTab} → Session tab₀ tab → Step tab after → Session tab₀ after

Step-IsShort :
    {tab after : ConfigTab} → Step tab after → All IsShort tab.saved → All IsShort after.saved
unfolding type_labels save_finally
Step-IsShort {tab} (type_all a b c) h = elim (Bool-cases tab.saving) [
  | inl e ↦ rw (e, type_labels) h
  | inr e ↦ rw (e, type_labels) h
]
Step-IsShort {tab} save h = handle_save-IsShort tab h
Step-IsShort done h = h

-- Whatever is typed into the form and however often it is saved, no label of more than 120
-- characters is ever saved, if none was before.
pub Session-IsShort :
    {tab₀ tab : ConfigTab} → Session tab₀ tab → All IsShort tab₀.saved → All IsShort tab.saved
Session-IsShort start h = h
Session-IsShort (next s st) h = Step-IsShort st (Session-IsShort s h)
