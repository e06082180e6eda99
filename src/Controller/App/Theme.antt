-- ===== src/Controller/App/Theme.antt =====
-- The theme of controller/web/src/App.tsx: its state hooks and the three effects. It shares the
-- types and the storage keys of the node dashboard's theme, which the source declares again.
pub mod Laws
mod Tests
use strom.Prelude.{String, str_eq, Bool, Option, none, some, if◌then◌else◌}
use strom.Dashboard.Theme.{
  ThemePreference, Theme, Storage, set_item, theme_pref_storage_key, legacy_theme_storage_key,
  preference_value, theme_value, or_else,
}

-- `normalizeThemePreference`
normalize_theme_preference : Option String → Option ThemePreference
normalize_theme_preference none = none
normalize_theme_preference (some value) =
    if str_eq value "system"
    then some ThemePreference.system
    else if str_eq value "light"
    then some ThemePreference.light
    else if str_eq value "dark"
    then some ThemePreference.dark
    else none

abbrev legacy_preference : Option ThemePreference → ThemePreference
legacy_preference (some ThemePreference.light) = ThemePreference.light
legacy_preference (some ThemePreference.dark) = ThemePreference.dark
legacy_preference _ = ThemePreference.system

-- The argument of `setThemePreference` in the first effect.
unfoldable pub saved_preference : Storage → ThemePreference
unfolding normalize_theme_preference
saved_preference storage =
    or_else (normalize_theme_preference (storage theme_pref_storage_key))
      (legacy_preference (normalize_theme_preference (storage legacy_theme_storage_key)))

pub record AppTheme : Type 0 where
  pub theme_preference : ThemePreference
  pub system_prefers_dark : Bool
  pub document_theme : Option Theme
  pub storage : Storage

abbrev system_theme : Bool → Theme
system_theme prefers_dark = if prefers_dark then Theme.dark else Theme.light

abbrev theme_for : Bool → ThemePreference → Theme
theme_for prefers_dark ThemePreference.system = system_theme prefers_dark
theme_for prefers_dark ThemePreference.light = Theme.light
theme_for prefers_dark ThemePreference.dark = Theme.dark

unfoldable pub resolved_theme : AppTheme → Theme
resolved_theme s = theme_for s.system_prefers_dark s.theme_preference

-- The effect on `[resolvedTheme, themePreference]`.
unfoldable pub show_theme : AppTheme → AppTheme
unfolding resolved_theme
show_theme s = record s {
  document_theme = some (resolved_theme s);
  storage =
      set_item legacy_theme_storage_key (theme_value (resolved_theme s))
        (set_item theme_pref_storage_key (preference_value s.theme_preference) s.storage);
}

-- A state setter, and the effect after the render that it causes. Where the state is as before,
-- React runs no effect; the effect would write what stands there.
unfoldable pub set_theme_preference : ThemePreference → AppTheme → AppTheme
unfolding show_theme
set_theme_preference next s = show_theme (record s { theme_preference = next })

unfoldable pub set_system_prefers_dark : Bool → AppTheme → AppTheme
unfolding show_theme
set_system_prefers_dark matches s = show_theme (record s { system_prefers_dark = matches })

-- The first render: the effects run in order, the first reads the storage before the third writes
-- it, and the preference that it found is set after both.
unfoldable pub mount : Bool → Storage → AppTheme
unfolding show_theme set_theme_preference saved_preference
mount prefers_dark storage =
    let found = saved_preference storage in
    set_theme_preference found (
      show_theme (record {
        theme_preference = ThemePreference.system;
        system_prefers_dark = prefers_dark;
        document_theme = none;
        storage = storage;
      }))
