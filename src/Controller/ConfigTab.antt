-- ===== src/Controller/ConfigTab.antt =====
-- The form of the configuration tab in controller/web/src/components/NodeDetailDialog.tsx. The length
-- of a text counts its code points, which for the labels' limit stand for UTF-16 code units.
pub mod Laws
mod Tests
use strom.Prelude.{
  ℕ, Text, codes, decimal, Bool, true, false, ◌||◌, Option, none, some, List, [], ◌∷◌, ◌++◌, length,
  ltb, if◌then◌else◌,
}
use strom.Dashboard.Settings.{trim}
use strom.Controller.NodeDialog.{DetailValues}

abbrev pub max_label_length : ℕ
max_label_length = 120

unfoldable pub field_error : Text → Option Text
field_error value =
    if ltb max_label_length (length value)
    then some (codes "Must be " ++ decimal max_label_length ++ codes " characters or fewer.")
    else none

-- `saved` are the values that `onSaveDetails` has been called with.
pub record ConfigTab : Type 0 where
  pub display_name : Text
  pub location_label : Text
  pub site_label : Text
  pub saving : Bool
  pub saved : List DetailValues

abbrev pub is_error : Option Text → Bool
is_error none = false
is_error (some text) = true

unfoldable pub has_errors : ConfigTab → Bool
unfolding field_error
has_errors tab =
    is_error (field_error tab.display_name)
    || is_error (field_error tab.location_label)
    || is_error (field_error tab.site_label)

-- `handleSave` up to its `await`, and its `finally`.
unfoldable pub handle_save : ConfigTab → ConfigTab
unfolding has_errors trim
handle_save tab = if has_errors tab || tab.saving then tab else record tab {
  saving = true;
  saved =
      tab.saved
      ++ record {
        display_name = trim tab.display_name;
        location_label = trim tab.location_label;
        site_label = trim tab.site_label;
      }
        ∷ [];
}

unfoldable pub save_finally : ConfigTab → ConfigTab
save_finally tab = record tab { saving = false }

-- The `onChange` of the inputs, which are disabled while the form is saved.
unfoldable pub type_labels : Text → Text → Text → ConfigTab → ConfigTab
type_labels display_name location_label site_label tab = if tab.saving then tab else record tab {
  display_name = display_name;
  location_label = location_label;
  site_label = site_label;
}
