-- ===== src/Dashboard/Theme/Tests.antt =====
-- Sessions of the theme component.
use strom.Prelude.{◌≡◌, refl, true, false, none, some}
use strom.Dashboard.Theme.{
  ThemePreference, Theme, Storage, ThemeState, fresh, init_theme, choose_option,
  handle_system_theme_change, apply_theme_preference,
}
use strom.Dashboard.Theme.Laws.{
  IsShown, Session, start, next, choose, change, Session-IsShown, init_theme-apply,
}

abbrev empty_storage : Storage
empty_storage = λ key. none

abbrev chosen : ThemeState
chosen = choose_option false (some "dark") (init_theme false (fresh empty_storage))

chosen-dark : chosen.document_theme ≡ some Theme.dark
unfolding choose_option init_theme
chosen-dark = refl

-- A dark theme is chosen, the system changes, and an attribute that names no theme is clicked.
abbrev session :
    Session false empty_storage true
      (choose_option true none (handle_system_theme_change true chosen))
session =
    next (next (next start (choose false (some "dark") _)) (change false true chosen))
      (choose true none _)

Session-IsShown_example :
    IsShown true (choose_option true none (handle_system_theme_change true chosen))
Session-IsShown_example = Session-IsShown session

init_theme-apply_test :
    (init_theme true (
      fresh
        (apply_theme_preference false ThemePreference.light true
          (fresh empty_storage)).storage)).preference
    ≡ ThemePreference.light
init_theme-apply_test = init_theme-apply false true ThemePreference.light (fresh empty_storage)
