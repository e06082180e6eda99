-- ===== src/Controller/Summary.antt =====
-- What the controller says of a UPS and of a series: formatUPSMetrics and formatBatteryTrend of
-- controller/web/src/lib/format.ts, and summarizeSeries of controller/web/src/components/ChartCard.tsx.
-- Numbers are a parameter with their text; an absent text is `[]`.
pub mod Laws
mod Tests
use strom.Prelude.{
  ℕ, ◌+◌, Text, codes, Bool, true, false, Option, none, some, List, [], ◌∷◌, ◌++◌, length,
  if◌then◌else◌,
}
use strom.Controller.Format.{format_duration, or_text}

-- The fields of a summary that its text is made of; the running time is a whole number of seconds.
pub record UpsTelemetry (Number : Type 0) : Type 0 where
  pub driver : Text
  pub battery_charge_percent : Option Number
  pub load_percent : Option Number
  pub runtime_seconds : Option ℕ

-- `parts.join(" • ")`
unfoldable pub join_parts : List Text → Text
join_parts [] = []
join_parts (part ∷ []) = part
join_parts (part ∷ next ∷ parts) = part ++ (32 ∷ 8226 ∷ 32 ∷ join_parts (next ∷ parts))

module _ {Number : Type 0} (number_text : Number → Text) where
  abbrev pub percent_part : Text → Option Number → List Text
  percent_part unit none = []
  percent_part unit (some value) = (number_text value ++ unit) ∷ []

  abbrev pub runtime_part : Option ℕ → List Text
  runtime_part none = []
  runtime_part (some seconds) = format_duration (some seconds) ∷ []

  unfoldable pub metric_parts : UpsTelemetry Number → List Text
  unfolding format_duration codes
  metric_parts summary =
      percent_part (codes "% battery") summary.battery_charge_percent
      ++ (percent_part (codes "% load") summary.load_percent
          ++ runtime_part summary.runtime_seconds)

  unfoldable pub format_ups_metrics : UpsTelemetry Number → Text
  unfolding metric_parts join_parts codes
  format_ups_metrics summary =
      or_text (or_text (join_parts (metric_parts summary)) summary.driver)
        (codes "no recent telemetry")

-- `round` is `Math.round`, `is_negative` the test `< 0`, and `date_text` the local date of a text.
pub record BatteryTrend (Number : Type 0) : Type 0 where
  pub trend_seconds_per_30d : Number
  pub estimated_replace_by : Text

module _ {Number : Type 0} (number_text : Number → Text) (round : Number → Number)
    (is_negative : Number → Bool) (date_text : Text → Text) where
  abbrev trend_text : Number → Text → Text
  trend_text per30_days [] =
      number_text per30_days
      ++ (codes "s/30d" ++ (if is_negative per30_days then [] else codes " • stable"))
  trend_text per30_days (c ∷ t) =
      number_text per30_days ++ (codes "s/30d • replace by " ++ date_text (c ∷ t))

  unfoldable pub format_battery_trend : Option (BatteryTrend Number) → Text
  unfolding codes
  format_battery_trend none = codes "insufficient data"
  format_battery_trend (some trend) =
      trend_text (round trend.trend_seconds_per_30d) trend.estimated_replace_by

pub record SeriesPoint (T Number : Type 0) : Type 0 where
  pub timestamp : T
  pub value : Number

pub record SeriesSummary (T Number : Type 0) : Type 0 where
  pub latest : Number
  pub latest_at : T
  pub least : Number
  pub greatest : Number
  pub count : ℕ

module _ {T Number : Type 0} (lt : Number → Number → Bool) where
  abbrev pub last_of : SeriesPoint T Number → List (SeriesPoint T Number) → SeriesPoint T Number
  last_of p [] = p
  last_of p (q ∷ rest) = last_of q rest

  abbrev pub least_of : Number → List (SeriesPoint T Number) → Number
  least_of least [] = least
  least_of least (p ∷ rest) = least_of (if lt p.value least then p.value else least) rest

  abbrev pub greatest_of : Number → List (SeriesPoint T Number) → Number
  greatest_of greatest [] = greatest
  greatest_of greatest (p ∷ rest) =
      greatest_of (if lt greatest p.value then p.value else greatest) rest

  unfoldable pub summarize_series : List (SeriesPoint T Number) → Option (SeriesSummary T Number)
  summarize_series [] = none
  summarize_series (p ∷ rest) = some (record {
    latest = (last_of p rest).value;
    latest_at = (last_of p rest).timestamp;
    least = least_of p.value rest;
    greatest = greatest_of p.value rest;
    count = length (p ∷ rest);
  })
