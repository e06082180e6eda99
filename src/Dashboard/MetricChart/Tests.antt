-- ===== src/Dashboard/MetricChart/Tests.antt =====
-- A render and a hover over the natural numbers.
use strom.Prelude.{
  ℕ, ◌+◌, ◌-◌, ◌*◌, ◌/◌, ◌≤◌, ◌≡◌, refl, true, Option, none, some, [], ◌∷◌, ltb, ◌==◌,
}
use strom.Dashboard.Chart.{Numbers, JsValue, finite, Instant, at, Point, Usable}
use strom.Dashboard.MetricDetail.{Metric, cpu_usage, ten_minutes}
use strom.Dashboard.MetricChart.{
  MetricChart, render_metric_detail_chart, handle_metric_detail_hover,
}
use strom.Dashboard.MetricChart.Laws.{hover-drawn}

abbrev naturals : Numbers
naturals = record {
  Number = ℕ;
  of_ℕ = λ k. k;
  sub = λ a b. a - b;
  mul = λ a b. a * b;
  div = λ a b. a / b;
  lt = ltb;
  is_zero = λ a. a == 0;
}

-- A sample is its instant; its value is the instant too.
abbrev time_of : ℕ → Instant
time_of instant = at instant

abbrev extract : Metric → ℕ → Option (JsValue ℕ)
extract label instant = some (finite instant)

abbrev add : ℕ → ℕ → ℕ
add a b = a + b

abbrev chart : MetricChart ℕ ℕ
chart = record {
  label = some cpu_usage;
  metric_window = ten_minutes;
  modal_open = true;
  metric_history = 300_000 ∷ 900_000 ∷ 1_000_000 ∷ [];
  metric_history_long = [];
  trend_cache = λ label. none;
  y_ticks = [];
  is_empty = true;
  guide = none;
}

-- The first sample is older than the window.
abbrev IsRecent : Usable ℕ → Type 0
IsRecent p = 400_000 ≤ p.timestamp

abbrev hovered : MetricChart ℕ ℕ
hovered =
    handle_metric_detail_hover naturals true 0
      (render_metric_detail_chart naturals add time_of extract 1_000_000 chart)

abbrev found : Point ℕ
found = record { timestamp = 900_000; value = 900_000; x = 0; y = 182 }

hovered-found : hovered.guide ≡ some found
unfolding handle_metric_detail_hover render_metric_detail_chart
hovered-found = refl

hover-drawn_example : 400_000 ≤ 900_000
hover-drawn_example =
    hover-drawn naturals add time_of extract IsRecent true 1_000_000 0 cpu_usage chart refl refl
      (λ t v e g h. h, (λ t v e g h. h, (λ t v e g h. h, tt))) found hovered-found
