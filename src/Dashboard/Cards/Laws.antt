-- ===== src/Dashboard/Cards/Laws.antt =====
-- A user who declines to discard edits keeps them.
use strom.Prelude.{String, eq_iff, ◌≡◌, refl, ap, ◌∙◌, true, false, some, List, [], ◌∷◌, arith}
use strom.Dashboard.Store.{Store}
use strom.Dashboard.Cards.{has_edits, select_card}

module _ {R : Type 0} where
  abbrev pub select_all : List String → Store R → Store R
  select_all [] s = s
  select_all (name ∷ names) s = select_all names (select_card false name s)

  select_card-kept :
      (name ups : String) (s : Store R)
      → has_edits s.dirty ≡ true
      → s.selected ≡ some ups
      → ((select_card false name s).dirty ≡ s.dirty)
        × ((select_card false name s).panel ≡ s.panel)
        × ((select_card false name s).selected ≡ some ups)
  unfolding select_card
  select_card-kept name ups s e h = ground (arith, eq_iff name ups)

  -- While there are unapplied edits, and as long as the user declines to discard them, no sequence of
  -- clicks on cards changes the edits, the detail on the page or the selection.
  pub select_all-kept :
      (names : List String) (ups : String) (s : Store R)
      → has_edits s.dirty ≡ true
      → s.selected ≡ some ups
      → ((select_all names s).dirty ≡ s.dirty)
        × ((select_all names s).panel ≡ s.panel)
        × ((select_all names s).selected ≡ some ups)
  select_all-kept [] ups s e h = (refl, refl, h)
  select_all-kept (name ∷ names) ups s e h =
      let kept = select_card-kept name ups s e h in
      let later =
        select_all-kept names ups (select_card false name s) (ap has_edits kept.0 ∙ e) kept.2 in
      (later.0 ∙ kept.0, later.1 ∙ kept.1, later.2)
