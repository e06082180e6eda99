-- ===== src/Controller/App/Theme/Laws.antt =====
-- The controller's page and the node's dashboard agree on the theme.
use strom.Prelude.{◌≡◌, refl, Bool, none, some, arith}
use strom.Dashboard.Theme.{ThemePreference, Storage, initial_preference, resolve_theme}
use strom.Controller.App.Theme.{
  AppTheme, saved_preference, resolved_theme, show_theme, set_theme_preference,
  set_system_prefers_dark, mount,
}

-- Both clients read the same preference out of the same storage, whatever it holds.
pub saved_preference-eq-initial_preference :
    (storage : Storage) → saved_preference storage ≡ initial_preference storage
unfolding saved_preference initial_preference
saved_preference-eq-initial_preference storage = ground arith

-- Both clients resolve a preference to the same theme.
pub resolved_theme-eq-resolve_theme :
    (s : AppTheme) → resolved_theme s ≡ resolve_theme s.system_prefers_dark s.theme_preference
unfolding resolved_theme resolve_theme
resolved_theme-eq-resolve_theme s = ground arith

pub data Step (s : AppTheme) : AppTheme → Type 0 where
  choose : (next : ThemePreference) → Step s (set_theme_preference next s)
  change : (matches : Bool) → Step s (set_system_prefers_dark matches s)

pub data Session (prefers_dark : Bool) (storage : Storage) : AppTheme → Type 0 where
  start : Session prefers_dark storage (mount prefers_dark storage)
  next :
      {s t : AppTheme} → Session prefers_dark storage s → Step s t → Session prefers_dark storage t

pub record IsSaved (s : AppTheme) : Type 0 where
  pub shown : s.document_theme ≡ some (resolved_theme s)
  pub saved : saved_preference s.storage ≡ s.theme_preference

show_theme-IsSaved : (s : AppTheme) → IsSaved (show_theme s)
unfolding show_theme saved_preference
show_theme-IsSaved s = record { shown = refl; saved = by_value s.theme_preference }
  where
    by_value :
        (p : ThemePreference)
        → saved_preference (show_theme (record s { theme_preference = p })).storage ≡ p
    by_value ThemePreference.system = refl
    by_value ThemePreference.light = refl
    by_value ThemePreference.dark = refl

Step-IsSaved : {s t : AppTheme} → Step s t → IsSaved t
unfolding set_theme_preference set_system_prefers_dark
Step-IsSaved {s = s} (choose p) = show_theme-IsSaved (record s { theme_preference = p })
Step-IsSaved {s = s} (change b) = show_theme-IsSaved (record s { system_prefers_dark = b })

abbrev first_state : Bool → Storage → AppTheme
first_state prefers_dark storage = record {
  theme_preference = ThemePreference.system;
  system_prefers_dark = prefers_dark;
  document_theme = none;
  storage = storage;
}

mount-IsSaved : (prefers_dark : Bool) (storage : Storage) → IsSaved (mount prefers_dark storage)
unfolding mount set_theme_preference
mount-IsSaved prefers_dark storage =
    show_theme-IsSaved (record (show_theme (first_state prefers_dark storage)) {
      theme_preference = saved_preference storage;
    })

-- At every moment of a session of the controller's page the document shows the theme of the
-- current preference, and a reload would read that preference back.
pub Session-IsSaved :
    {prefers_dark : Bool} {storage : Storage} {s : AppTheme}
    → Session prefers_dark storage s
    → IsSaved s
Session-IsSaved start = mount-IsSaved _ _
Session-IsSaved (next r st) = Step-IsSaved st
