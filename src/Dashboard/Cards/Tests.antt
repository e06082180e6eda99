-- ===== src/Dashboard/Cards/Tests.antt =====
-- Clicks on cards while a setting is edited.
use strom.Prelude.{ℕ, ◌≡◌, refl, some, none, [], ◌∷◌}
use strom.Dashboard.Store.{Store, message}
use strom.Dashboard.Cards.Laws.{select_all, select_all-kept}

abbrev page : Store ℕ
page = record {
  upses = [];
  selected = some "rack";
  detail = none;
  dirty = "ups.id" ∷ [];
  grid = [];
  panel = message none;
  sent = [];
  toast = none;
}

select_all-kept_test :
    ((select_all ("office" ∷ "rack" ∷ []) page).dirty ≡ "ups.id" ∷ [])
    × ((select_all ("office" ∷ "rack" ∷ []) page).panel ≡ message none)
    × ((select_all ("office" ∷ "rack" ∷ []) page).selected ≡ some "rack")
select_all-kept_test = select_all-kept ("office" ∷ "rack" ∷ []) "rack" page refl refl
