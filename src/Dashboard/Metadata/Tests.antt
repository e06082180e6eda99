-- ===== src/Dashboard/Metadata/Tests.antt =====
-- Tags of a UPS.
use strom.Prelude.{ℕ, codes, ◌≡◌, refl, false, none, some, [], ◌∷◌, ◌++◌}
use strom.Dashboard.Settings.{trim}
use strom.Dashboard.Store.{Ups, Detail, message, Store}
use strom.Dashboard.Metadata.{
  UpsMetadata, MetadataModal, parse_tags, join_tags, open_ups_metadata_modal, save_begin,
}
use strom.Dashboard.Metadata.Tags.{IsTag, parse_tags-join_tags}
use strom.Dashboard.Metadata.Laws.{stream_update, save_begin-open, save_begin-other_ups}

split_test : parse_tags (codes " lab ,, east wing,") ≡ codes "lab" ∷ codes "east wing" ∷ []
unfolding parse_tags codes
split_test = refl

lab-IsTag : IsTag (codes "lab")
unfolding codes trim
lab-IsTag = record { filled = refl; whole = refl; trimmed = refl }

wing-IsTag : IsTag (codes "east wing")
unfolding codes trim
wing-IsTag = record { filled = refl; whole = refl; trimmed = refl }

parse_tags-join_tags_test :
    parse_tags (join_tags (codes "lab" ∷ codes "east wing" ∷ []))
    ≡ codes "lab" ∷ codes "east wing" ∷ []
parse_tags-join_tags_test =
    parse_tags-join_tags (codes "lab" ∷ codes "east wing" ∷ []) (lab-IsTag, (wing-IsTag, tt))

abbrev rack_detail : Detail ℕ
rack_detail = record {
  name = "rack";
  driver = "usbhid-ups";
  display_name = "";
  status = "OL";
  reading = 5;
  writable = [];
  commands = [];
}

abbrev office : Ups ℕ
office = record {
  name = "office";
  driver = "usbhid-ups";
  display_name = "";
  status = "OL";
  reading = 7;
}

abbrev page : Store ℕ
page = record {
  upses = [];
  selected = some "rack";
  detail = some rack_detail;
  dirty = [];
  grid = [];
  panel = message none;
  sent = [];
  toast = none;
}

abbrev modal : MetadataModal ℕ
modal = record {
  store = page;
  modal_open = false;
  display_name_value = [];
  tags_value = [];
  error = none;
  save_disabled = false;
  patches = [];
}

abbrev lab : UpsMetadata
lab = record { display_name = codes "Rack A"; tags = codes "lab" ∷ codes "east wing" ∷ [] }

lab_name-trim : trim lab.display_name ≡ lab.display_name
unfolding codes trim
lab_name-trim = refl

save_begin-open_example :
    (save_begin (open_ups_metadata_modal lab modal)).patches
    ≡ record { ups = "rack"; metadata = lab } ∷ []
save_begin-open_example =
    save_begin-open "rack" rack_detail lab modal refl refl lab_name-trim
      (lab-IsTag, (wing-IsTag, tt))

abbrev typed : MetadataModal ℕ
typed = record (open_ups_metadata_modal lab modal) { display_name_value = codes "Rack B" }

save_begin-other_ups_example :
    ((stream_update (office ∷ []) typed).modal_open ≡ typed.modal_open)
    × ((save_begin (stream_update (office ∷ []) typed)).patches
        ≡ typed.patches
          ++ record {
            ups = "office";
            metadata = record {
              display_name = trim typed.display_name_value;
              tags = parse_tags typed.tags_value;
            };
          }
            ∷ [])
unfolding open_ups_metadata_modal
save_begin-other_ups_example =
    save_begin-other_ups "rack" rack_detail office [] typed refl refl refl
