-- ===== src/Dashboard/Live/Laws.antt =====
-- What a live update changes, and what it leaves alone.
use strom.Prelude.{eq_refl, ◌≡◌, refl, ◌⊎◌, inl, inr, true, none, List, [], ◌∷◌, arith}
use strom.Dashboard.Store.{Ups, Store, cards}
use strom.Dashboard.Settings.{controls_of}
use strom.Dashboard.Live.{is_listed, update_live_ups_data, refresh_with}

module _ {R : Type 0} where
  abbrev pub IsGridCurrent : Store R → Type 0
  IsGridCurrent s = s.grid ≡ cards s.upses s.selected

  -- After a list of UPSes has come in on the stream, a UPS of the list is selected, or the list is
  -- empty, none is selected and no detail is left.
  pub update_live-selected :
      (upses : List (Ups R)) (s : Store R)
      → (is_listed (update_live_ups_data upses s).selected upses ≡ true)
        ⊎ ((upses ≡ [])
            × ((update_live_ups_data upses s).selected ≡ none)
            × ((update_live_ups_data upses s).detail ≡ none))
  unfolding update_live_ups_data
  update_live-selected [] s = inr (refl, ground arith, ground arith)
  update_live-selected (u ∷ upses) s = ground (arith, eq_refl u.name)

  -- After a list of UPSes has come in on the stream, the grid shows the inventory and the selection.
  pub update_live-grid :
      (upses : List (Ups R)) (s : Store R) → IsGridCurrent (update_live_ups_data upses s)
  unfolding update_live_ups_data cards
  update_live-grid upses s = ground arith

  -- If the selected UPS is in a list that comes in on the stream, the unapplied edits, the
  -- selection, the controls with the text in them and the sent requests stay as they are.
  pub update_live-keeps_edits :
      (upses : List (Ups R)) (s : Store R)
      → is_listed s.selected upses ≡ true
      → ((update_live_ups_data upses s).dirty ≡ s.dirty)
        × ((update_live_ups_data upses s).selected ≡ s.selected)
        × ((update_live_ups_data upses s).sent ≡ s.sent)
        × (controls_of (update_live_ups_data upses s).panel ≡ controls_of s.panel)
  unfolding update_live_ups_data
  update_live-keeps_edits upses s listed = ground arith

  -- After a reload of the list with the selection preserved, the grid is current, and a UPS of the
  -- list is selected and asked for, or the list is empty and none is.
  pub refresh_with-selected :
      (upses : List (Ups R)) (s : Store R)
      → IsGridCurrent (refresh_with true upses s)
        × ((is_listed (refresh_with true upses s).selected upses ≡ true)
            ⊎ ((upses ≡ []) × ((refresh_with true upses s).selected ≡ none)))
  unfolding refresh_with cards
  refresh_with-selected [] s = (ground arith, inr (refl, ground arith))
  refresh_with-selected (u ∷ upses) s = (ground arith, inl (ground (arith, eq_refl u.name)))
