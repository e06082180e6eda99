-- ===== src/Dashboard/Health.antt =====
-- The cards of the node's health in agent/internal/api/web/app.js: `renderHealth`, its trends and the
-- clicks on its cards. `to_fixed` is that of the numbers, and a sample of the agent has the type `R`.
pub mod Laws
mod Tests
use strom.Prelude.{
  ℕ, Text, codes, text_eq, Bool, true, false, Option, none, some, List, [], ◌∷◌, ◌++◌, map,
  if◌then◌else◌,
}
use strom.Dashboard.Chart.{Numbers, JsValue, finite, Instant}
use strom.Dashboard.Format.{format_duration, format_bytes}
use strom.Dashboard.MetricDetail.{
  Metric, cpu_usage, cpu_temp, memory_used, disk_free, is_live, DetailState,
  open_metric_detail_modal,
}
use strom.Dashboard.MetricChart.{MetricChart, render_metric_detail_chart}
use strom.Dashboard.Sparkline.{Spark, TrendSample, build_sparkline}

pub record HealthData (Number : Type 0) : Type 0 where
  pub version : Text
  pub uptime_seconds : Option ℕ
  pub disk_free_bytes : ℕ
  pub cpu_temperature_celsius : Option Number
  pub cpu_usage_percent : Option Number
  pub memory_used_bytes : ℕ
  pub memory_total_bytes : ℕ

pub record Card (Number : Type 0) : Type 0 where
  pub label : Text
  pub value : Text
  pub interactive : Bool
  pub trend : Option (Spark Instant Number)

-- The entry of `TREND_EXTRACTORS` for a label.
unfoldable pub metric_of : Text → Option Metric
unfolding text_eq codes
metric_of label =
    if text_eq label (codes "CPU usage")
    then some cpu_usage
    else if text_eq label (codes "CPU temp")
    then some cpu_temp
    else if text_eq label (codes "Memory used")
    then some memory_used
    else if text_eq label (codes "Disk free")
    then some disk_free
    else none

abbrev pub is_entry : Option Metric → Bool
is_entry none = false
is_entry (some metric) = true

-- `els.versionBadge` is `none` on a page without it.
pub record HealthPage (R Number : Type 0) : Type 0 where
  pub health : Option (HealthData Number)
  pub version_badge : Option Text
  pub cards : List (Card Number)
  pub chart : MetricChart R Number

abbrev badge_with : Text → Option Text → Option Text
badge_with version none = none
badge_with version (some old) = some version

module _ {Number : Type 0} (to_fixed : ℕ → Number → Text) where
  abbrev pub or_unavailable : Text → Option Number → Text
  or_unavailable unit none = codes "unavailable"
  or_unavailable unit (some value) = to_fixed 1 value ++ unit

  -- The labels and values of the cards.
  unfoldable pub card_values : HealthData Number → List (Text × Text)
  unfolding format_duration format_bytes codes
  card_values health =
      (codes "Uptime", format_duration health.uptime_seconds)
      ∷ (codes "Disk free", format_bytes health.disk_free_bytes)
      ∷ (codes "CPU temp", or_unavailable (codes " C") health.cpu_temperature_celsius)
      ∷ (codes "CPU usage", or_unavailable (codes "%") health.cpu_usage_percent)
      ∷ (
        codes "Memory used",
        format_bytes health.memory_used_bytes
            ++ (codes " / " ++ format_bytes health.memory_total_bytes),
      )
      ∷ []

abbrev finite_of : {A : Type 0} → Option (JsValue A) → Option A
finite_of (some (finite value)) = some value
finite_of _ = none

module _ (n : Numbers) {R : Type 0} where
  open n use {Number, of_ℕ}

  abbrev pub sample_of :
      (R → Instant)
      → (Metric → R → Option (JsValue Number))
      → Metric
      → R
      → TrendSample Instant Number
  sample_of time_of extract metric r = record {
    timestamp = time_of r;
    value = finite_of (extract metric r);
  }

  abbrev pub trend_of :
      (R → Instant)
      → (Metric → R → Option (JsValue Number))
      → List R
      → Option Metric
      → Option (Spark Instant Number)
  trend_of time_of extract history none = none
  trend_of time_of extract history (some metric) =
      build_sparkline n (map (sample_of time_of extract metric) history) (of_ℕ 100) (of_ℕ 32)

  unfoldable pub render_metric_trend :
      (R → Instant)
      → (Metric → R → Option (JsValue Number))
      → List R
      → Text
      → Option (Spark Instant Number)
  unfolding metric_of build_sparkline
  render_metric_trend time_of extract history label =
      trend_of time_of extract history (metric_of label)

  abbrev pub card_of :
      (R → Instant) → (Metric → R → Option (JsValue Number)) → List R → (Text × Text) → Card Number
  card_of time_of extract history (label, value) = record {
    label = label;
    value = value;
    interactive = is_entry (metric_of label);
    trend = render_metric_trend time_of extract history label;
  }

  abbrev follow :
      (Number → Number → Number)
      → (R → Instant)
      → (Metric → R → Option (JsValue Number))
      → ℕ
      → MetricChart R Number
      → MetricChart R Number
  follow add time_of extract now c =
      let drawn = render_metric_detail_chart n add time_of extract now c in
      if is_entry c.label then (if is_live c.metric_window then drawn else c) else c

  abbrev render_data :
      (Number → Number → Number)
      → (ℕ → Number → Text)
      → (R → Instant)
      → (Metric → R → Option (JsValue Number))
      → ℕ
      → Option (HealthData Number)
      → HealthPage R Number
      → HealthPage R Number
  render_data add to_fixed time_of extract now none s = s
  render_data add to_fixed time_of extract now (some health) s = record s {
    version_badge = badge_with health.version s.version_badge;
    cards = map (card_of time_of extract s.chart.metric_history) (card_values to_fixed health);
    chart = follow add time_of extract now s.chart;
  }

  unfoldable pub render_health :
      (Number → Number → Number)
      → (ℕ → Number → Text)
      → (R → Instant)
      → (Metric → R → Option (JsValue Number))
      → ℕ
      → HealthPage R Number
      → HealthPage R Number
  unfolding card_values render_metric_trend render_metric_detail_chart
  render_health add to_fixed time_of extract now s =
      render_data add to_fixed time_of extract now s.health s

-- The listener of `wireMetricCards`, which a card without an entry does not get.
unfoldable pub click_card : Bool → Text → DetailState → DetailState
unfolding metric_of open_metric_detail_modal
click_card has_modal label s = open_metric_detail_modal has_modal (metric_of label) s
