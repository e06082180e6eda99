-- ===== src/Controller/HeaderMenu.antt =====
-- controller/web/src/components/HeaderMenu.tsx: the menu of the header. The router is a parameter;
-- `signal` is `fleetRefreshSignal` of App.tsx.
pub mod Laws
mod Tests
use strom.Prelude.{
  ℕ, ◌+◌, ◌≡◌, Text, codes, text_eq, Bool, true, false, not, ◌&&◌, Option, none, some, List, [],
  ◌∷◌, if◌then◌else◌,
}
use strom.Dashboard.Theme.{ThemePreference}

-- React Router over the browser's history, by the paths of its entries; `past` has those behind the
-- current one, the latest first.
pub record Navigation (H : Type 0) : Type 0 where
  pub location : H → Text
  pub past : H → List Text
  pub navigate : Text → H → H
  pub location-navigate : (path : Text) (h : H) → location (navigate path h) ≡ path
  pub past-navigate : (path : Text) (h : H) → past (navigate path h) ≡ location h ∷ past h

pub record HeaderMenu (H : Type 0) : Type 0 where
  pub is_open : Bool
  pub history : H
  pub signal : ℕ
  pub theme_preference : ThemePreference

abbrev pub fleet_path : Text
fleet_path = codes "/"

module _ {H : Type 0} where
  unfoldable pub open_menu : HeaderMenu H → HeaderMenu H
  open_menu m = record m { is_open = true }

  unfoldable pub handle_close : HeaderMenu H → HeaderMenu H
  handle_close m = record m { is_open = false }

  -- The documentation opens in another tab.
  unfoldable pub click_docs : HeaderMenu H → HeaderMenu H
  unfolding handle_close
  click_docs m = handle_close m

  -- The button group of the themes; `none` is a click on the one that is chosen.
  unfoldable pub choose_theme : Option ThemePreference → HeaderMenu H → HeaderMenu H
  unfolding handle_close
  choose_theme none m = m
  choose_theme (some preference) m = handle_close (record m { theme_preference = preference })

module _ {H : Type 0} (n : Navigation H) where
  unfoldable pub handle_navigate : Text → HeaderMenu H → HeaderMenu H
  unfolding handle_close text_eq codes
  handle_navigate path m = handle_close (
      if text_eq path fleet_path && text_eq (n.location m.history) fleet_path
      then record m { signal = m.signal + 1 }
      else record m { history = n.navigate path m.history })

  -- A `RouterLink` navigates after its listener, unless that has prevented it.
  abbrev follow_link : Bool → Text → HeaderMenu H → HeaderMenu H
  follow_link prevented path m =
      if prevented then m else record m { history = n.navigate path m.history }

  unfoldable pub click_fleet : HeaderMenu H → HeaderMenu H
  unfolding handle_navigate text_eq codes
  click_fleet m =
      follow_link (text_eq (n.location m.history) fleet_path) fleet_path
        (handle_navigate fleet_path m)

  -- The items of the alerts and of the settings.
  unfoldable pub click_page : Text → HeaderMenu H → HeaderMenu H
  unfolding handle_close
  click_page path m = follow_link false path (handle_close m)
