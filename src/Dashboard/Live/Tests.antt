-- ===== src/Dashboard/Live/Tests.antt =====
-- A page with one UPS selected, and lists that the stream brings.
use strom.Prelude.{ℕ, ◌≡◌, refl, ◌⊎◌, true, false, none, some, [], ◌∷◌}
use strom.Dashboard.Store.{Ups, Detail, message, ok, Store, load_begin, load_end}
use strom.Dashboard.Live.{is_listed, update_live_ups_data, refresh_with}
use strom.Dashboard.Live.Laws.{
  IsGridCurrent, update_live-selected, update_live-keeps_edits, refresh_with-selected,
}
use strom.Dashboard.Live.Patching.{IsPatched, start, next, select, loaded, live, Session-IsPatched}
use strom.Dashboard.Settings.{controls_of}

abbrev office : Ups ℕ
office = record {
  name = "office";
  driver = "usbhid-ups";
  display_name = "Office";
  status = "OL";
  reading = 7;
}

abbrev rack : Ups ℕ
rack = record {
  name = "rack";
  driver = "snmp-ups";
  display_name = "";
  status = "OB LB";
  reading = 3;
}

abbrev page : Store ℕ
page = record {
  upses = office ∷ rack ∷ [];
  selected = some "rack";
  detail = none;
  dirty = "ups.delay.start" ∷ [];
  grid = [];
  panel = message none;
  sent = [];
  toast = none;
}

update_live-selected_example :
    (is_listed (update_live_ups_data (office ∷ []) page).selected (office ∷ []) ≡ true)
    ⊎ ((office ∷ [] ≡ [])
        × ((update_live_ups_data (office ∷ []) page).selected ≡ none)
        × ((update_live_ups_data (office ∷ []) page).detail ≡ none))
update_live-selected_example = update_live-selected (office ∷ []) page

update_live-keeps_edits_example :
    ((update_live_ups_data (rack ∷ office ∷ []) page).dirty ≡ page.dirty)
    × ((update_live_ups_data (rack ∷ office ∷ []) page).selected ≡ page.selected)
    × ((update_live_ups_data (rack ∷ office ∷ []) page).sent ≡ page.sent)
    × (controls_of (update_live_ups_data (rack ∷ office ∷ []) page).panel ≡ controls_of page.panel)
update_live-keeps_edits_example = update_live-keeps_edits (rack ∷ office ∷ []) page refl

refresh_with-selected_test :
    IsGridCurrent (refresh_with true (office ∷ []) page)
    × ((is_listed (refresh_with true (office ∷ []) page).selected (office ∷ []) ≡ true)
        ⊎ ((office ∷ [] ≡ []) × ((refresh_with true (office ∷ []) page).selected ≡ none)))
refresh_with-selected_test = refresh_with-selected (office ∷ []) page

abbrev rack_detail : Detail ℕ
rack_detail = record {
  name = "rack";
  driver = "snmp-ups";
  display_name = "";
  status = "OL";
  reading = 5;
  writable = [];
  commands = [];
}

-- The rack is loaded, and then a list says that it is on battery.
abbrev patched : Store ℕ
patched =
    update_live_ups_data (office ∷ rack ∷ [])
      (load_end false "rack" (ok rack_detail) (load_begin "rack" page))

patched_status : patched.detail ≡ some (record rack_detail { status = "OB LB"; reading = 3 })
unfolding update_live_ups_data load_end load_begin
patched_status = refl

Session-IsPatched_example : IsPatched patched
Session-IsPatched_example =
    Session-IsPatched
      (next (next (next start (select "rack")) (loaded false "rack" (ok rack_detail)))
        (live (office ∷ rack ∷ [])))
      tt
