-- ===== src/Dashboard/Metadata.antt =====
-- The metadata dialog of agent/internal/api/web/app.js: the operator's name and tags of a UPS.
pub mod Tags
pub mod Laws
mod Tests
use strom.Prelude.{
  ℕ, String, Text, codes, Bool, true, false, not, Option, none, some, List, [], ◌∷◌, ◌++◌, map,
  if◌then◌else◌, ◌==◌, keep,
}
use strom.Dashboard.Settings.{trim}
use strom.Dashboard.Store.{Detail, Reply, ok, failed, Store, show_toast, load_begin}

-- `split` at a separator of one character.
abbrev cons_first : ℕ → List Text → List Text
cons_first x [] = (x ∷ []) ∷ []
cons_first x (part ∷ parts) = (x ∷ part) ∷ parts

unfoldable pub split_on : ℕ → Text → List Text
split_on c [] = [] ∷ []
split_on c (x ∷ t) = let parts = split_on c t in if x == c then [] ∷ parts else cons_first x parts

abbrev pub is_filled : Text → Bool
is_filled [] = false
is_filled (c ∷ t) = true

-- `split(",").map((tag) => tag.trim()).filter(Boolean)`
unfoldable pub parse_tags : Text → List Text
unfolding split_on trim
parse_tags text = keep is_filled (map trim (split_on b',' text))

-- `join(", ")`
unfoldable pub join_tags : List Text → Text
join_tags [] = []
join_tags (tag ∷ []) = tag
join_tags (tag ∷ next ∷ tags) = tag ++ b',' ∷ b' ' ∷ join_tags (next ∷ tags)

pub record UpsMetadata : Type 0 where
  pub display_name : Text
  pub tags : List Text

pub record Patch : Type 0 where
  pub ups : String
  pub metadata : UpsMetadata

-- The dialog and its inputs; `patches` are the requests that it has sent.
pub record MetadataModal (R : Type 0) : Type 0 where
  pub store : Store R
  pub modal_open : Bool
  pub display_name_value : Text
  pub tags_value : Text
  pub error : Option Text
  pub save_disabled : Bool
  pub patches : List Patch

module _ {R : Type 0} where
  unfoldable pub open_ups_metadata_modal : UpsMetadata → MetadataModal R → MetadataModal R
  unfolding join_tags
  open_ups_metadata_modal metadata s = record s {
    modal_open = true;
    display_name_value = metadata.display_name;
    tags_value = join_tags metadata.tags;
    error = none;
  }

  unfoldable pub close_ups_metadata_modal : MetadataModal R → MetadataModal R
  close_ups_metadata_modal s = record s { modal_open = false }

  abbrev save_found : Option String → Option (Detail R) → MetadataModal R → MetadataModal R
  save_found (some ups) (some d) s = record s {
    save_disabled = true;
    error = none;
    patches =
        s.patches
        ++ record {
          ups = ups;
          metadata = record {
            display_name = trim s.display_name_value;
            tags = parse_tags s.tags_value;
          };
        }
          ∷ [];
  }
  save_found _ _ s = s

  -- `saveUPSMetadata` up to its first `await`.
  unfoldable pub save_begin : MetadataModal R → MetadataModal R
  unfolding parse_tags trim
  save_begin s = save_found s.store.selected s.store.detail s

  abbrev reload : Option String → Store R → Store R
  reload none s = s
  reload (some ups) s = load_begin ups s

  -- With the reply, up to the `await` of the load.
  unfoldable pub save_end : Reply (Unit {0}) → MetadataModal R → MetadataModal R
  unfolding close_ups_metadata_modal load_begin
  save_end (ok done) s = record (close_ups_metadata_modal s) {
    store = reload s.store.selected s.store;
  }
  save_end (failed text) s = record s { error = some text; save_disabled = false }

  -- After the load.
  unfoldable pub save_done : MetadataModal R → MetadataModal R
  save_done s = record s {
    store = show_toast (codes "UPS details saved.") false s.store;
    save_disabled = false;
  }
