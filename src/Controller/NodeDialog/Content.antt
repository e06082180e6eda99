-- ===== src/Controller/NodeDialog/Content.antt =====
-- What controller/web/src/components/NodeDetailDialog.tsx shows of a node: its tabs, the overview and
-- the policy of the configuration tab. Numbers are a parameter with their texts.
use strom.Prelude.{
  ℕ, Text, codes, Bool, Option, none, some, List, [], ◌∷◌, ◌++◌, ◌==◌, map, if◌then◌else◌,
}
use strom.Controller.Format.{
  StatusSeverity, NodeNames, format_node_display_name, status_to_severity, or_text, format_bytes,
}
use strom.Controller.Summary.{UpsTelemetry, format_ups_metrics}
use strom.Controller.NodeCard.{Row, location}
use strom.Controller.NodeDialog.{NodeDialog}

unfoldable pub change_tab : {H : Type 0} → ℕ → NodeDialog H → NodeDialog H
change_tab value d = record d { tab = value }

-- An absent text is `[]`.
pub record UpsSummary (Number : Type 0) : Type 0 where
  pub name : Text
  pub display_name : Text
  pub status : Text
  pub telemetry : UpsTelemetry Number

pub record NodeInfo (Number : Type 0) : Type 0 where
  pub names : NodeNames
  pub version : Text
  pub location_label : Text
  pub site_label : Text
  pub adopted : Bool
  pub local_ui_policy_managed : Bool
  pub local_ui_policy_enabled : Bool
  pub ups_summaries : List (UpsSummary Number)

pub record NodeHealth (Number : Type 0) : Type 0 where
  pub version : Text
  pub cpu_temperature_celsius : Option Number
  pub disk_free_bytes : Option ℕ

-- A row of the inventory: `caption` and `chip` are there if the UPS has a name of the operator's, and
-- a status.
pub record UpsRow : Type 0 where
  pub key : Text
  pub title : Text
  pub caption : Option Text
  pub chip : Option StatusSeverity
  pub readings : Text

-- `is_checked` is the switch of the local UI; `has_release` says that its policy can be released.
pub data Policy : Type 0 where
  unmanageable : Policy
  manageable : (is_checked : Bool) (text : Text) (has_release : Bool) → Policy

pub data Content : Type 0 where
  failure : Text → Content
  loading : Content
  overview : (cards : List Row) (inventory : List UpsRow) → Content
  config : Policy → Content

abbrev policy_text : Bool → Bool → Text
policy_text managed enabled =
    if managed
    then codes (if enabled then "Controller-managed: enabled." else "Controller-managed: disabled.")
    else codes "Node-managed. Toggling takes controller ownership of this setting."

abbrev caption_of : Text → Text → Option Text
caption_of [] name = none
caption_of (c ∷ t) name = some name

abbrev chip_of : Text → Option StatusSeverity
chip_of [] = none
chip_of (c ∷ t) = some (status_to_severity (c ∷ t))

abbrev bytes_of : Option ℕ → ℕ
bytes_of none = 0
bytes_of (some bytes) = bytes

-- `number_text` is a number in a template, and `one_decimal` is `toFixed(1)`.
module _ {Number : Type 0} (number_text one_decimal : Number → Text) where
  unfoldable pub policy : NodeInfo Number → Policy
  unfolding codes
  policy node =
      if node.adopted
      then manageable node.local_ui_policy_enabled
          (policy_text node.local_ui_policy_managed node.local_ui_policy_enabled)
          node.local_ui_policy_managed
      else unmanageable

  abbrev temperature : Option Number → Text
  temperature none = codes "unknown"
  temperature (some value) = one_decimal value ++ codes " C"

  unfoldable pub overview_cards : NodeInfo Number → NodeHealth Number → List Row
  unfolding codes format_bytes
  overview_cards node health =
      record {
        label = codes "Agent version";
        value = or_text (or_text health.version node.version) (codes "dev");
      }
      ∷ record { label = codes "CPU temp"; value = temperature health.cpu_temperature_celsius }
      ∷ record { label = codes "Disk free"; value = format_bytes (bytes_of health.disk_free_bytes) }
      ∷ record {
        label = codes "Location";
        value = or_text (location node.location_label node.site_label) (codes "unassigned");
      }
      ∷ []

  unfoldable pub ups_row : UpsSummary Number → UpsRow
  unfolding status_to_severity format_ups_metrics
  ups_row summary = record {
    key = summary.name;
    title = or_text summary.display_name summary.name;
    caption = caption_of summary.display_name summary.name;
    chip = chip_of summary.status;
    readings = format_ups_metrics number_text summary.telemetry;
  }

  unfoldable pub title : Option (NodeInfo Number) → Text
  unfolding format_node_display_name codes
  title none = codes "Node detail"
  title (some node) = format_node_display_name node.names

  abbrev tab_content : ℕ → NodeInfo Number → NodeHealth Number → Content
  tab_content tab node health =
      if tab == 0
      then overview (overview_cards node health) (map ups_row node.ups_summaries)
      else config (policy node)

  abbrev loaded_content : ℕ → Option (NodeInfo Number) → Option (NodeHealth Number) → Content
  loaded_content tab (some node) (some health) = tab_content tab node health
  loaded_content tab _ _ = loading

  unfoldable pub content :
      Option Text → ℕ → Option (NodeInfo Number) → Option (NodeHealth Number) → Content
  unfolding overview_cards ups_row policy
  content (some (c ∷ error)) tab shown health = failure (c ∷ error)
  content _ tab shown health = loaded_content tab shown health
