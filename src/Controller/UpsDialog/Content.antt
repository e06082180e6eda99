-- ===== src/Controller/UpsDialog/Content.antt =====
-- What controller/web/src/components/UPSDetailDialog.tsx shows of a UPS. Numbers are a parameter with
-- their texts, and `localeCompare` is one, as the test that a name does not come after another one.
use strom.Prelude.{
  ℕ, Text, codes, Bool, Option, none, some, List, [], ◌∷◌, ◌++◌, map, if◌then◌else◌,
}
use strom.Controller.Format.{StatusSeverity, status_to_severity, or_text, format_duration}
use strom.Controller.Summary.{BatteryTrend, format_battery_trend}
use strom.Controller.NodeCard.{Row}
use strom.Dashboard.Metadata.{UpsMetadata}
use strom.Dashboard.Variables.{Entry, sort_entries}

pub record Metrics (Number : Type 0) : Type 0 where
  pub status : Text
  pub battery_charge_percent : Option Number
  pub load_percent : Option Number
  pub runtime_seconds : Option ℕ

pub record CommandInfo : Type 0 where
  pub name : Text
  pub description : Text
  pub destructive : Bool

-- An absent text is `[]`.
pub record DetailInfo (Number : Type 0) : Type 0 where
  pub name : Text
  pub status : Text
  pub metadata : UpsMetadata
  pub metrics : Option (Metrics Number)
  pub battery_runtime_trend : Option (BatteryTrend Number)
  pub commands : List CommandInfo
  pub variables : List Entry

abbrev unknown : Text
unknown = codes "unknown"

-- A card of a command: its overline, its description and its button.
pub record CommandCard : Type 0 where
  pub overline : Text
  pub name : Text
  pub description : Text
  pub button : Text

unfoldable pub command_card : CommandInfo → CommandCard
unfolding codes
command_card command = record {
  overline = codes (if command.destructive then "Destructive" else "Command");
  name = command.name;
  description = or_text command.description (codes "No description reported by NUT.");
  button = codes (if command.destructive then "Confirm and run" else "Run command");
}

pub record Page : Type 0 where
  pub rows : List Row
  pub chip : StatusSeverity
  pub tags : List Text
  pub commands : List CommandCard
  pub variables : List Entry

pub data Content : Type 0 where
  failure : Text → Content
  loading : Content
  page : Page → Content

abbrev name_prefix : Text → Text → Text
name_prefix [] name = []
name_prefix (c ∷ t) name = name ++ codes " - "

module _ {Number : Type 0} where
  abbrev title_name : Option (DetailInfo Number) → Text
  title_name none = []
  title_name (some detail) = or_text detail.metadata.display_name detail.name

  unfoldable pub title : Option (DetailInfo Number) → Text → Text
  unfolding codes
  title detail ups_name = or_text (or_text (title_name detail) ups_name) (codes "UPS detail")

  abbrev subtitle_name : Option (DetailInfo Number) → Text
  subtitle_name none = []
  subtitle_name (some detail) = name_prefix detail.metadata.display_name detail.name

  unfoldable pub subtitle : Option (DetailInfo Number) → Text
  unfolding codes
  subtitle detail =
      subtitle_name detail
      ++ codes "Live controller-side UPS detail with 24h charts and instant commands."

-- `number_text` is a number in a template; the others are those of `format_battery_trend`.
module _ {Number : Type 0} (number_text : Number → Text) (round : Number → Number)
    (is_negative : Number → Bool) (date_text : Text → Text) (not_after : Text → Text → Bool) where
  abbrev percent : Option Number → Text
  percent none = unknown
  percent (some value) = number_text value ++ codes "%"

  abbrev runtime : Option ℕ → Text
  runtime none = unknown
  runtime (some seconds) = format_duration (some seconds)

  abbrev reading : {A : Type 0} → (Metrics Number → Option A) → Option (Metrics Number) → Option A
  reading field none = none
  reading field (some metrics) = field metrics

  abbrev metrics_status : Option (Metrics Number) → Text
  metrics_status none = []
  metrics_status (some metrics) = metrics.status

  unfoldable pub status_text : DetailInfo Number → Text
  unfolding codes
  status_text detail = or_text (or_text detail.status (metrics_status detail.metrics)) unknown

  unfoldable pub reading_rows : DetailInfo Number → List Row
  unfolding status_text format_duration format_battery_trend codes
  reading_rows detail =
      record { label = codes "Status"; value = status_text detail }
      ∷ record {
        label = codes "Battery";
        value = percent (reading (λ m. m.battery_charge_percent) detail.metrics);
      }
      ∷ record {
        label = codes "Load";
        value = percent (reading (λ m. m.load_percent) detail.metrics);
      }
      ∷ record {
        label = codes "Runtime";
        value = runtime (reading (λ m. m.runtime_seconds) detail.metrics);
      }
      ∷ record {
        label = codes "Battery trend";
        value =
            format_battery_trend number_text round is_negative date_text
              detail.battery_runtime_trend;
      }
      ∷ []

  abbrev page_of : DetailInfo Number → Page
  page_of detail = record {
    rows = reading_rows detail;
    chip = status_to_severity (status_text detail);
    tags = detail.metadata.tags;
    commands = map command_card detail.commands;
    variables = sort_entries not_after detail.variables;
  }

  abbrev loaded_content : Option (DetailInfo Number) → Content
  loaded_content none = loading
  loaded_content (some detail) = page (page_of detail)

  unfoldable pub content : Option Text → Option (DetailInfo Number) → Content
  unfolding reading_rows status_to_severity command_card sort_entries
  content (some (c ∷ error)) detail = failure (c ∷ error)
  content _ detail = loaded_content detail
