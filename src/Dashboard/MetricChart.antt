-- ===== src/Dashboard/MetricChart.antt =====
-- The chart of the metric dialog in agent/internal/api/web/app.js: what `renderMetricDetailChart` keeps
-- for the hover, its gridlines of values, and the hover itself. The clock is past the widest window.
-- The lines that are drawn are left out.
pub mod Laws
pub mod Texts
mod Tests
use strom.Prelude.{
  ℕ, zero, suc, ◌+◌, ◌-◌, Bool, true, false, not, ◌&&◌, Option, none, some, List, [], ◌∷◌, map, leb,
  ltb, ◌==◌, if◌then◌else◌, keep,
}
use strom.Dashboard.Chart.{
  Numbers, JsValue, Instant, at, invalid_date, Sample, Point, Series, compute_time_ticks,
  build_time_series_chart, nearest, or_one,
}
use strom.Dashboard.MetricDetail.{
  Metric, cpu_usage, cpu_temp, memory_used, disk_free, MetricWindow, ten_minutes, one_hour,
  six_hours, one_day, is_live,
}

-- `METRIC_DETAIL_WINDOWS` and `METRIC_DETAIL_TICK_INTERVALS_MS`, in milliseconds.
abbrev pub window_ms : MetricWindow → ℕ
window_ms ten_minutes = 600_000
window_ms one_hour = 3_600_000
window_ms six_hours = 21_600_000
window_ms one_day = 86_400_000

abbrev pub tick_interval_ms : MetricWindow → ℕ
tick_interval_ms ten_minutes = 60_000
tick_interval_ms one_hour = 300_000
tick_interval_ms six_hours = 1_800_000
tick_interval_ms one_day = 7_200_000

abbrev pub metric_index : Metric → ℕ
metric_index cpu_usage = 0
metric_index cpu_temp = 1
metric_index memory_used = 2
metric_index disk_free = 3

-- `METRIC_DETAIL_PLOT_WIDTH` and `METRIC_DETAIL_PLOT_HEIGHT`.
abbrev pub plot_width : ℕ
plot_width = 600 - 60 - 16

abbrev pub plot_height : ℕ
plot_height = 220 - 10 - 28

pub record Tick (Number : Type 0) : Type 0 where
  pub timestamp : ℕ
  pub x : Number

pub record ValueTick (Number : Type 0) : Type 0 where
  pub value : Number
  pub y : Number

-- `state.trendCache["detail:" + label]`.
pub record Cached (Number : Type 0) : Type 0 where
  pub x_ticks : List (Tick Number)
  pub plotted : List (Point Number)

-- `R` is the type of a sample of the agent. The guide of the hover shows a plotted point, or is hidden.
pub record MetricChart (R Number : Type 0) : Type 0 where
  pub label : Option Metric
  pub metric_window : MetricWindow
  pub modal_open : Bool
  pub metric_history : List R
  pub metric_history_long : List R
  pub trend_cache : Metric → Option (Cached Number)
  pub y_ticks : List (ValueTick Number)
  pub is_empty : Bool
  pub guide : Option (Point Number)

abbrev pub is_from : ℕ → Instant → Bool
is_from start_time invalid_date = false
is_from start_time (at timestamp) = leb start_time timestamp

abbrev pub instant_distance : ℕ → ℕ → ℕ
instant_distance a b = if ltb a b then b - a else a - b

module _ (n : Numbers) where
  open n use {Number, of_ℕ, sub, mul, div, lt}

  -- `computeValueTicks`, from an index on. `add` is JavaScript's sum.
  abbrev value_ticks_from : (Number → Number → Number) → Number → Number → ℕ → ℕ → ℕ → List Number
  value_ticks_from add least range count i zero = []
  value_ticks_from add least range count i (suc left) =
      add least (div (mul range (of_ℕ i)) (of_ℕ (count - 1)))
      ∷ value_ticks_from add least range count (i + 1) left

  unfoldable pub compute_value_ticks :
      (Number → Number → Number) → Number → Number → ℕ → List Number
  compute_value_ticks add least greatest count =
      value_ticks_from add least (sub greatest least) count 0 count

  abbrev x_tick : ℕ → ℕ → ℕ → Tick Number
  x_tick start_time window timestamp = record {
    timestamp = timestamp;
    x = mul (div (sub (of_ℕ timestamp) (of_ℕ start_time)) (of_ℕ window)) (of_ℕ plot_width);
  }

  abbrev value_tick : Number → Number → Number → ValueTick Number
  value_tick least greatest value = record {
    value = value;
    y =
        sub (of_ℕ plot_height)
          (mul (div (sub value least) (or_one n (sub greatest least))) (of_ℕ plot_height));
  }

  abbrev pub plotted_of : Option (Series Number) → List (Point Number)
  plotted_of none = []
  plotted_of (some series) = series.plotted

  abbrev y_ticks_of : (Number → Number → Number) → Option (Series Number) → List (ValueTick Number)
  y_ticks_of add none = []
  y_ticks_of add (some series) =
      map (value_tick series.least series.greatest)
        (compute_value_ticks add series.least series.greatest 5)

  abbrev is_none : Option (Series Number) → Bool
  is_none none = true
  is_none (some series) = false

  abbrev pub put_cache :
      Metric → Cached Number → (Metric → Option (Cached Number)) → Metric → Option (Cached Number)
  put_cache label cached cache other =
      if metric_index other == metric_index label then some cached else cache other

  -- `Math.abs(a - b)`
  abbrev pub number_distance : Number → Number → Number
  number_distance a b = if lt a b then sub b a else sub a b

  abbrev pub snap : Number → List (Tick Number) → List (Point Number) → Option (Point Number)
  snap rel_x (tick ∷ ticks) (point ∷ points) =
      let near = nearest lt (λ t. number_distance t.x rel_x) tick ticks in
      some (nearest ltb (λ p. instant_distance p.timestamp near.timestamp) point points)
  snap rel_x _ _ = none

  abbrev pub snap_cached : Number → Option (Cached Number) → Option (Point Number)
  snap_cached rel_x none = none
  snap_cached rel_x (some cached) = snap rel_x cached.x_ticks cached.plotted

  abbrev pub cached_for : Option Metric → (Metric → Option (Cached Number)) → Option (Cached Number)
  cached_for none cache = none
  cached_for (some label) cache = cache label

-- `extract` gives a sample's number for a metric, if it has one; `time_of` the instant of its date.
module _ (n : Numbers) {R : Type 0} where
  open n use {Number, of_ℕ}

  -- The samples of the window.
  unfoldable pub window_samples : (R → Instant) → ℕ → MetricWindow → MetricChart R Number → List R
  window_samples time_of now w s =
      let source = if is_live w then s.metric_history else s.metric_history_long in
      keep (λ r. is_from (now - window_ms w) (time_of r)) source

  abbrev pub to_sample :
      (R → Instant) → (Metric → R → Option (JsValue Number)) → Metric → R → Sample Number
  to_sample time_of extract label r = record { timestamp = time_of r; value = extract label r }

  abbrev pub with_series :
      (Number → Number → Number)
      → ℕ
      → Metric
      → Option (Series Number)
      → MetricChart R Number
      → MetricChart R Number
  with_series add now label series s =
      let w = s.metric_window in
      let start_time = now - window_ms w in
      record s {
        trend_cache =
            put_cache n label
              (record {
                x_ticks =
                    map (x_tick n start_time (window_ms w))
                      (compute_time_ticks start_time now (tick_interval_ms w));
                plotted = plotted_of n series;
              })
              s.trend_cache;
        y_ticks = y_ticks_of n add series;
        is_empty = is_none n series;
      }

  abbrev pub render_label :
      (Number → Number → Number)
      → (R → Instant)
      → (Metric → R → Option (JsValue Number))
      → ℕ
      → Option Metric
      → MetricChart R Number
      → MetricChart R Number
  render_label add time_of extract now none s = s
  render_label add time_of extract now (some label) s =
      if s.modal_open
      then with_series add now label
          (build_time_series_chart n
            (map (to_sample time_of extract label) (window_samples time_of now s.metric_window s))
            (now - window_ms s.metric_window) now (of_ℕ plot_width) (of_ℕ plot_height))
          s
      else s

  unfoldable pub render_metric_detail_chart :
      (Number → Number → Number)
      → (R → Instant)
      → (Metric → R → Option (JsValue Number))
      → ℕ
      → MetricChart R Number
      → MetricChart R Number
  unfolding window_samples compute_value_ticks compute_time_ticks build_time_series_chart
  render_metric_detail_chart add time_of extract now s =
      render_label add time_of extract now s.label s

  -- `handleMetricDetailHover` on an element with a size; `inside` says that the cursor, which is at
  -- `rel_x`, is in the plotted area. Where there is nothing to snap to it is `handleMetricDetailLeave`.
  unfoldable pub handle_metric_detail_hover :
      Bool → Number → MetricChart R Number → MetricChart R Number
  unfolding nearest
  handle_metric_detail_hover inside rel_x s =
      let found = snap_cached n rel_x (cached_for n s.label s.trend_cache) in
      record s { guide = if inside then found else none }
