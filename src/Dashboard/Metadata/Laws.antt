-- ===== src/Dashboard/Metadata/Laws.antt =====
-- What the metadata dialog sends: the metadata it was opened with, or what was typed, and for whom.
use strom.Prelude.{String, ◌≡◌, refl, false, some, List, [], ◌∷◌, ◌++◌, arith, All}
use strom.Dashboard.Settings.{trim}
use strom.Dashboard.Store.{Ups, Detail}
use strom.Dashboard.Live.{is_listed, update_live_ups_data}
use strom.Dashboard.Metadata.{
  UpsMetadata, MetadataModal, parse_tags, open_ups_metadata_modal, save_begin,
}
use strom.Dashboard.Metadata.Tags.{IsTag, parse_tags-join_tags}

module _ {R : Type 0} where
  -- Metadata that the dialog is opened with and that nobody edits is saved as it is, for the selected
  -- UPS, if white space ends neither the name nor a tag and each tag is not empty and has no comma.
  pub save_begin-open :
      (ups : String) (d : Detail R) (metadata : UpsMetadata) (s : MetadataModal R)
      → s.store.selected ≡ some ups
      → s.store.detail ≡ some d
      → trim metadata.display_name ≡ metadata.display_name
      → All IsTag metadata.tags
      → (save_begin (open_ups_metadata_modal metadata s)).patches
        ≡ s.patches ++ record { ups = ups; metadata = metadata } ∷ []
  unfolding save_begin open_ups_metadata_modal
  save_begin-open ups d metadata s sel det name tags =
      rw (sel, det, name, parse_tags-join_tags metadata.tags tags) refl

  -- The stream brings a list.
  abbrev pub stream_update : List (Ups R) → MetadataModal R → MetadataModal R
  stream_update upses s = record s { store = update_live_ups_data upses s.store }

  -- A list that comes in on the stream without the selected UPS leaves the dialog open or closed as it
  -- is; if a detail is loaded, saving then sends what was typed for that UPS to the first UPS of the
  -- new list.
  pub save_begin-other_ups :
      (a : String) (d : Detail R) (u : Ups R) (upses : List (Ups R)) (s : MetadataModal R)
      → s.store.selected ≡ some a
      → s.store.detail ≡ some d
      → is_listed (some a) (u ∷ upses) ≡ false
      → ((stream_update (u ∷ upses) s).modal_open ≡ s.modal_open)
        × ((save_begin (stream_update (u ∷ upses) s)).patches
            ≡ s.patches
              ++ record {
                ups = u.name;
                metadata = record {
                  display_name = trim s.display_name_value;
                  tags = parse_tags s.tags_value;
                };
              }
                ∷ [])
  unfolding save_begin update_live_ups_data
  save_begin-other_ups a d u upses s sel det gone = (refl, ground arith)
