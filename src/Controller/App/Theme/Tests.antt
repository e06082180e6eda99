-- ===== src/Controller/App/Theme/Tests.antt =====
-- Sessions of the controller's theme.
use strom.Prelude.{◌≡◌, refl, true, false, none}
use strom.Dashboard.Theme.{
  ThemePreference, Storage, set_item, legacy_theme_storage_key, initial_preference,
}
use strom.Controller.App.Theme.{
  saved_preference, set_theme_preference, set_system_prefers_dark, mount,
}
use strom.Controller.App.Theme.Laws.{
  saved_preference-eq-initial_preference, IsSaved, Session, start, next, choose, change,
  Session-IsSaved,
}

-- Only the legacy key is there.
abbrev legacy_storage : Storage
legacy_storage = set_item legacy_theme_storage_key "dark" (λ key. none)

reads_legacy : saved_preference legacy_storage ≡ ThemePreference.dark
unfolding saved_preference
reads_legacy = refl

saved_preference-eq-initial_preference_test :
    saved_preference legacy_storage ≡ initial_preference legacy_storage
saved_preference-eq-initial_preference_test = saved_preference-eq-initial_preference legacy_storage

abbrev session : Session false legacy_storage (
    set_system_prefers_dark true
      (set_theme_preference ThemePreference.system (mount false legacy_storage)))
session = next (next start (choose ThemePreference.system)) (change true)

Session-IsSaved_test : IsSaved (
    set_system_prefers_dark true
      (set_theme_preference ThemePreference.system (mount false legacy_storage)))
Session-IsSaved_test = Session-IsSaved session
