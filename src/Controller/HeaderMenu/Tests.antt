-- ===== src/Controller/HeaderMenu/Tests.antt =====
-- A click from the page of the alerts, over a list of paths.
use strom.Prelude.{◌≡◌, refl, Text, codes, text_eq, true, false, List, [], ◌∷◌}
use strom.Dashboard.Theme.{ThemePreference}
use strom.Controller.HeaderMenu.{Navigation, HeaderMenu, fleet_path, click_fleet}
use strom.Controller.HeaderMenu.Laws.{click_fleet-cases}

abbrev paths : Navigation (Text × List Text)
paths = record {
  location = λ h. h.0;
  past = λ h. h.1;
  navigate = λ path h. (path, h.0 ∷ h.1);
  location-navigate = λ path h. refl;
  past-navigate = λ path h. refl;
}

abbrev at_alerts : HeaderMenu (Text × List Text)
at_alerts = record {
  is_open = true;
  history = (codes "/alerts", []);
  signal = 0;
  theme_preference = ThemePreference.system;
}

click_fleet-cases_example :
    ((click_fleet paths at_alerts).is_open ≡ false)
    × ((text_eq (codes "/alerts") fleet_path ≡ true
          → ((click_fleet paths at_alerts).history ≡ (codes "/alerts", []))
            × ((click_fleet paths at_alerts).signal ≡ 1))
        × (text_eq (codes "/alerts") fleet_path ≡ false
            → (paths.location (click_fleet paths at_alerts).history ≡ fleet_path)
              × (paths.past (click_fleet paths at_alerts).history
                  ≡ fleet_path ∷ codes "/alerts" ∷ [])))
click_fleet-cases_example = click_fleet-cases paths at_alerts
