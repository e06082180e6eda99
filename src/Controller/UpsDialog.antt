-- ===== src/Controller/UpsDialog.antt =====
-- The handlers of controller/web/src/components/UPSDetailDialog.tsx, and toChartSeries of
-- controller/web/src/lib/format.ts. An `async` function is cut at its `await`; the answer of a
-- confirmation is an argument. `R` is the type of the rest of a UPS's detail, `S` of a sample of a
-- history, `H` of a point of a chart.
pub mod Laws
pub mod Stale
pub mod Editor
mod Editing
pub mod Content
mod Tests
use strom.Prelude.{
  ℕ, String, Text, codes, Bool, true, false, not, ◌||◌, ◌&&◌, Option, none, some, List, [], ◌∷◌,
  ◌++◌, map, reverse, keep, text_eq, if◌then◌else◌,
}
use strom.Controller.Format.{Thrown, humanize_error, or_text}
use strom.Dashboard.Settings.{trim}
use strom.Dashboard.Metadata.{UpsMetadata, parse_tags, join_tags}

pub record UpsDetail (R : Type 0) : Type 0 where
  pub metadata : UpsMetadata
  pub body : R

pub record MetadataForm : Type 0 where
  pub display_name : Text
  pub tags : Text

pub data Request : Type 0 where
  fetch_ups_detail : (node_id ups_name : String) → Request
  fetch_ups_history : (node_id ups_name variable : String) → Request
  run_ups_command : (node_id ups_name command : String) → Request
  update_ups_metadata : (node_id ups_name : String) → UpsMetadata → Request

pub data Reply (A : Type 0) : Type 0 where
  ok : A → Reply A
  failed : Thrown → Reply A

pub record Toast : Type 0 where
  pub text : Text
  pub is_error : Bool

-- The four replies that `load` waits for.
pub record Loaded (R S : Type 0) : Type 0 where
  pub detail : UpsDetail R
  pub charge : List S
  pub load_samples : List S
  pub runtime : List S

-- `active_key` is `activeKeyRef.current`.
pub record UpsDialog (R H : Type 0) : Type 0 where
  pub node_id : Option String
  pub ups_name : Option String
  pub active_key : Text
  pub detail : Option (UpsDetail R)
  pub charge_history : List H
  pub load_history : List H
  pub runtime_history : List H
  pub error : Option Text
  pub metadata_editor_open : Bool
  pub metadata_form : MetadataForm
  pub saving_metadata : Bool
  pub sent : List Request
  pub toasts : List Toast

abbrev or_null : Option String → Text
or_null none = codes "null"
or_null (some text) = codes text

unfoldable pub key_of : Option String → Option String → Text
key_of node_id ups_name = or_null node_id ++ codes "/" ++ or_null ups_name

-- `point` makes a chart's point of a sample, whose value may not be finite.
unfoldable pub to_chart_series : {S H : Type 0} → (S → H) → (H → Bool) → List S → List H
to_chart_series point is_finite samples = keep is_finite (map point (reverse samples))

abbrev pub with_metadata : {R : Type 0} → UpsMetadata → Option (UpsDetail R) → Option (UpsDetail R)
with_metadata metadata none = none
with_metadata metadata (some detail) = some (record detail { metadata = metadata })

module _ {R H : Type 0} where
  abbrev send : List Request → UpsDialog R H → UpsDialog R H
  send requests d = record d { sent = d.sent ++ requests }

  abbrev toast : Text → Bool → UpsDialog R H → UpsDialog R H
  toast text is_error d = record d {
    toasts = d.toasts ++ record { text = text; is_error = is_error } ∷ [];
  }

  abbrev pub load_names : Option String → Option String → UpsDialog R H → UpsDialog R H
  load_names (some node) (some ups) d =
      send
        (fetch_ups_detail node ups
          ∷ fetch_ups_history node ups "battery.charge"
          ∷ fetch_ups_history node ups "ups.load"
          ∷ fetch_ups_history node ups "battery.runtime"
          ∷ [])
        d
  load_names _ _ d = d

  -- `load` up to its `await`.
  unfoldable pub load_begin : UpsDialog R H → UpsDialog R H
  load_begin d = load_names d.node_id d.ups_name d

  -- `load` with all replies, or with the first failure.
  unfoldable pub load_end :
      {S : Type 0}
      → (S → H)
      → (H → Bool)
      → Bool
      → Text
      → Reply (Loaded R S)
      → UpsDialog R H
      → UpsDialog R H
  unfolding to_chart_series text_eq
  load_end point is_finite silent requested (ok loaded) d =
      if text_eq d.active_key requested
      then record d {
        detail = some loaded.detail;
        charge_history = to_chart_series point is_finite loaded.charge;
        load_history = to_chart_series point is_finite loaded.load_samples;
        runtime_history = to_chart_series point is_finite loaded.runtime;
        error = none;
      }
      else d
  load_end point is_finite silent requested (failed thrown) d =
      if not (text_eq d.active_key requested) || silent
      then d
      else record d { error = some (humanize_error thrown (codes "Unknown error")) }

  -- New properties of the component, and the effect on them.
  unfoldable pub set_names : Option String → Option String → UpsDialog R H → UpsDialog R H
  unfolding load_begin key_of
  set_names node_id ups_name d = load_begin (record d {
    node_id = node_id;
    ups_name = ups_name;
    active_key = key_of node_id ups_name;
    detail = none;
    charge_history = [];
    load_history = [];
    runtime_history = [];
    error = none;
  })

  abbrev command_names :
      Bool → String → Bool → Option String → Option String → UpsDialog R H → UpsDialog R H
  command_names confirmed command destructive (some node) (some ups) d =
      if destructive && not confirmed then d else send (run_ups_command node ups command ∷ []) d
  command_names confirmed command destructive _ _ d = d

  -- `handleCommand` up to the `await` of its request; then with the reply, up to the next request;
  -- then with the detail. The names are those at the click.
  unfoldable pub command_begin : Bool → String → Bool → UpsDialog R H → UpsDialog R H
  command_begin confirmed command destructive d =
      command_names confirmed command destructive d.node_id d.ups_name d

  unfoldable pub command_end :
      (node_id ups_name : String) → Reply (Text × Text) → UpsDialog R H → UpsDialog R H
  command_end node_id ups_name (ok (command, output)) d =
      send (fetch_ups_detail node_id ups_name ∷ [])
        (toast (command ++ codes ": " ++ or_text output (codes "OK")) false d)
  command_end node_id ups_name (failed thrown) d =
      toast (humanize_error thrown (codes "Command failed.")) true d

  unfoldable pub command_loaded : Reply (UpsDetail R) → UpsDialog R H → UpsDialog R H
  command_loaded (ok updated) d = record d { detail = some updated }
  command_loaded (failed thrown) d = toast (humanize_error thrown (codes "Command failed.")) true d

  abbrev edit_detail : Option (UpsDetail R) → UpsDialog R H → UpsDialog R H
  edit_detail none d = d
  edit_detail (some detail) d = record d {
    metadata_form = record {
      display_name = detail.metadata.display_name;
      tags = join_tags detail.metadata.tags;
    };
    metadata_editor_open = true;
  }

  unfoldable pub open_metadata_editor : UpsDialog R H → UpsDialog R H
  unfolding join_tags
  open_metadata_editor d = edit_detail d.detail d

  abbrev save_names : Option String → Option String → UpsDialog R H → UpsDialog R H
  save_names (some node) (some ups) d =
      send
        (update_ups_metadata node ups (record {
          display_name = trim d.metadata_form.display_name;
          tags = parse_tags d.metadata_form.tags;
        })
          ∷ [])
        (record d { saving_metadata = true })
  save_names _ _ d = d

  -- `handleMetadataSave` up to its `await`, and with the reply.
  unfoldable pub save_begin : UpsDialog R H → UpsDialog R H
  unfolding parse_tags trim
  save_begin d = save_names d.node_id d.ups_name d

  unfoldable pub save_end : Reply UpsMetadata → UpsDialog R H → UpsDialog R H
  save_end (ok metadata) d =
      let saved = record d {
        detail = with_metadata metadata d.detail;
        metadata_editor_open = false;
      } in
      record (toast (codes "UPS details saved.") false saved) { saving_metadata = false }
  save_end (failed thrown) d =
      record (toast (humanize_error thrown (codes "Unable to save UPS details.")) true d) {
        saving_metadata = false;
      }
