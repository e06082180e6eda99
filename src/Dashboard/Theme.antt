-- ===== src/Dashboard/Theme.antt =====
-- Theme selection of agent/internal/api/web/app.js: the saved preference, the resolved theme, and
-- what the document and the browser's storage hold. Whether the system prefers dark is a parameter.
pub mod Laws
mod Tests
use strom.Prelude.{String, str_eq, Bool, true, false, ◌&&◌, Option, none, some, if◌then◌else◌}

pub data ThemePreference : Type 0 where
  system light dark : ThemePreference

pub data Theme : Type 0 where
  light dark : Theme

-- `window.localStorage`: `getItem` is application, with `null` as `none`.
abbrev pub Storage : Type 0
Storage = String → Option String

abbrev pub set_item : String → String → Storage → Storage
set_item key value storage = λ k. if str_eq k key then some value else storage k

abbrev pub theme_pref_storage_key : String
theme_pref_storage_key = "strom-theme-preference"

abbrev pub legacy_theme_storage_key : String
legacy_theme_storage_key = "strom-theme"

abbrev pub preference_value : ThemePreference → String
preference_value system = "system"
preference_value light = "light"
preference_value dark = "dark"

abbrev pub theme_value : Theme → String
theme_value light = "light"
theme_value dark = "dark"

abbrev normalize_value : String → Option ThemePreference
normalize_value value =
    if str_eq value "system"
    then some system
    else if str_eq value "light"
    then some light
    else if str_eq value "dark"
    then some dark
    else none

unfoldable pub normalize_theme_preference : Option String → Option ThemePreference
normalize_theme_preference none = none
normalize_theme_preference (some value) = normalize_value value

unfoldable pub resolve_theme : Bool → ThemePreference → Theme
resolve_theme prefers_dark light = Theme.light
resolve_theme prefers_dark dark = Theme.dark
resolve_theme prefers_dark system = if prefers_dark then Theme.dark else Theme.light

abbrev pub same_preference : ThemePreference → ThemePreference → Bool
same_preference system system = true
same_preference light light = true
same_preference dark dark = true
same_preference _ _ = false

-- `checked` is the `aria-checked` attribute of each theme option.
pub record ThemeState : Type 0 where
  pub preference : ThemePreference
  pub document_theme : Option Theme
  pub checked : ThemePreference → Bool
  pub storage : Storage

unfoldable pub apply_theme_preference : Bool → ThemePreference → Bool → ThemeState → ThemeState
unfolding resolve_theme
apply_theme_preference prefers_dark preference persist s = record s {
  preference = preference;
  document_theme = some (resolve_theme prefers_dark preference);
  checked = λ option. same_preference option preference;
  storage =
      if persist
      then set_item legacy_theme_storage_key (theme_value (resolve_theme prefers_dark preference))
          (set_item theme_pref_storage_key (preference_value preference) s.storage)
      else s.storage;
}

-- `savedPref || legacyTheme || "system"`
abbrev pub or_else {ℓ} : {A : Type ℓ} → Option A → A → A
or_else none d = d
or_else (some a) d = a

unfoldable pub initial_preference : Storage → ThemePreference
unfolding normalize_theme_preference
initial_preference storage =
    let saved = normalize_theme_preference (storage theme_pref_storage_key) in
    let legacy = normalize_theme_preference (storage legacy_theme_storage_key) in
    or_else saved (or_else legacy system)

-- The state before `initTheme`: the literal `state`, and a document with no theme.
abbrev pub fresh : Storage → ThemeState
fresh storage = record {
  preference = system;
  document_theme = none;
  checked = λ option. false;
  storage = storage;
}

unfoldable pub init_theme : Bool → ThemeState → ThemeState
unfolding initial_preference apply_theme_preference
init_theme prefers_dark s =
    apply_theme_preference prefers_dark (initial_preference s.storage) false s

-- The click handler of a theme option with its `data-theme-option` attribute. (It also closes the
-- profile menu, which `Menu` models.)
unfoldable pub choose_option : Bool → Option String → ThemeState → ThemeState
unfolding normalize_theme_preference apply_theme_preference
choose_option prefers_dark attribute s = elim (normalize_theme_preference attribute) [
  | none ↦ s
  | some next ↦ apply_theme_preference prefers_dark next true s
]

-- The media query's listener, with the value after the change.
unfoldable pub handle_system_theme_change : Bool → ThemeState → ThemeState
unfolding apply_theme_preference
handle_system_theme_change prefers_dark s =
    if same_preference s.preference system
    then apply_theme_preference prefers_dark system false s
    else s
