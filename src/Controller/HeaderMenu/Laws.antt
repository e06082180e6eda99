-- ===== src/Controller/HeaderMenu/Laws.antt =====
-- Where the items of the menu lead.
use strom.Prelude.{arith, ◌+◌, ◌≡◌, refl, codes, text_eq, true, false, ◌∷◌}
use strom.Controller.HeaderMenu.{Navigation, HeaderMenu, fleet_path, click_fleet, handle_navigate}

module _ {H : Type 0} (n : Navigation H) where
  menu-closed : (m : HeaderMenu H) → (click_fleet n m).is_open ≡ false
  unfolding click_fleet handle_navigate
  menu-closed m = ground arith

  -- A click on an item closes the menu. On the fleet page the item of the fleet reloads it, without
  -- an entry in the history. On any other page it leads to the fleet with two entries, since both
  -- its listener and its link navigate: the entry behind the current one is the fleet page again,
  -- and only the one behind that is the page where the click was.
  pub click_fleet-cases :
      (m : HeaderMenu H)
      → ((click_fleet n m).is_open ≡ false)
        × ((text_eq (n.location m.history) fleet_path ≡ true
              → ((click_fleet n m).history ≡ m.history) × ((click_fleet n m).signal ≡ m.signal + 1))
            × (text_eq (n.location m.history) fleet_path ≡ false
                → (n.location (click_fleet n m).history ≡ fleet_path)
                  × (n.past (click_fleet n m).history
                      ≡ fleet_path ∷ n.location m.history ∷ n.past m.history)))
  unfolding click_fleet handle_navigate text_eq codes
  click_fleet-cases m = (
    menu-closed m,
    (
      λ e. rw e (refl, refl),
      λ e.
          rw
            (
              e,
              n.location-navigate fleet_path (n.navigate fleet_path m.history),
              n.past-navigate fleet_path (n.navigate fleet_path m.history),
              n.location-navigate fleet_path m.history,
              n.past-navigate fleet_path m.history,
            )
            (refl, refl),
    ),
  )
