-- ===== src/Dashboard/Theme/Laws.antt =====
-- The document follows the preference, and a saved preference survives a reload.
use strom.Prelude.{
  ◌≡◌, refl, ap, ◌∙◌, String, Bool, true, false, Option, some, arith, Option-cases, Bool-cases, inl,
  inr,
}
use strom.Dashboard.Theme.{
  ThemePreference, system, light, dark, Storage, ThemeState, fresh, resolve_theme, same_preference,
  preference_value, normalize_theme_preference, apply_theme_preference, initial_preference,
  init_theme, choose_option, handle_system_theme_change,
}

-- What the page shows agrees with the preference and with what the system prefers now.
pub record IsShown (prefers_dark : Bool) (s : ThemeState) : Type 0 where
  pub theme : s.document_theme ≡ some (resolve_theme prefers_dark s.preference)
  pub option : (p : ThemePreference) → s.checked p ≡ same_preference p s.preference

-- The events of a session, with what the system prefers before and after each.
pub data Step : Bool → ThemeState → Bool → ThemeState → Type 0 where
  choose :
      (d : Bool) (attribute : Option String) (s : ThemeState)
      → Step d s d (choose_option d attribute s)
  change : (d d' : Bool) (s : ThemeState) → Step d s d' (handle_system_theme_change d' s)

pub data Session (d₀ : Bool) (storage : Storage) : Bool → ThemeState → Type 0 where
  start : Session d₀ storage d₀ (init_theme d₀ (fresh storage))
  next :
      {d d' : Bool} {s s' : ThemeState}
      → Session d₀ storage d s
      → Step d s d' s'
      → Session d₀ storage d' s'

apply-IsShown :
    (d : Bool) (p : ThemePreference) (persist : Bool) (s : ThemeState)
    → IsShown d (apply_theme_preference d p persist s)
unfolding apply_theme_preference
apply-IsShown d p persist s = record { theme = refl; option = λ q. refl }

same_preference-eq : (p q : ThemePreference) → same_preference p q ≡ true → p ≡ q
same_preference-eq p q h = ground arith

resolve_theme-fixed :
    (d d' : Bool) (p : ThemePreference)
    → same_preference p system ≡ false
    → resolve_theme d p ≡ resolve_theme d' p
unfolding resolve_theme
resolve_theme-fixed d d' p h = ground arith

Step-IsShown : {d d' : Bool} {s s' : ThemeState} → Step d s d' s' → IsShown d s → IsShown d' s'
unfolding choose_option handle_system_theme_change
Step-IsShown (choose d attribute s) v = elim (Option-cases (normalize_theme_preference attribute)) [
  | inl e ↦ rw (e, choose_option) v
  | inr (p, e) ↦ rw (e, choose_option) (apply-IsShown d p true s)
]
Step-IsShown (change d d' s) v = elim (Bool-cases (same_preference s.preference system)) [
  | inl e ↦ rw (e, handle_system_theme_change) (apply-IsShown d' system false s)
  | inr e ↦
      rw (e, handle_system_theme_change)
        (record {
          theme = v.theme ∙ ap some (resolve_theme-fixed d d' s.preference e);
          option = v.option;
        })
]

-- However the user and the system change the theme after `initTheme`, the document shows the theme
-- that the preference resolves to now, and exactly the preferred option is checked.
pub Session-IsShown :
    {d₀ : Bool} {storage : Storage} {d : Bool} {s : ThemeState}
    → Session d₀ storage d s
    → IsShown d s
unfolding init_theme
Session-IsShown {d₀} {storage = storage} start =
    apply-IsShown d₀ (initial_preference storage) false (fresh storage)
Session-IsShown (next r st) = Step-IsShown st (Session-IsShown r)

normalize-preference_value :
    (p : ThemePreference) → normalize_theme_preference (some (preference_value p)) ≡ some p
unfolding normalize_theme_preference
normalize-preference_value system = refl
normalize-preference_value light = refl
normalize-preference_value dark = refl

-- A theme that the user chose is the preference again after a reload, whatever the system prefers
-- then and whatever was stored before.
pub init_theme-apply :
    (d d' : Bool) (p : ThemePreference) (s : ThemeState)
    → (init_theme d' (fresh (apply_theme_preference d p true s).storage)).preference ≡ p
unfolding init_theme
init_theme-apply d d' p s = rw (normalize-preference_value p)
