-- ===== src/Dashboard/Health/Tests.antt =====
-- The cards of a node without samples, over the natural numbers.
use strom.Prelude.{
  ℕ, ◌+◌, ◌-◌, ◌*◌, ◌/◌, refl, decimal, codes, Text, true, false, Option, none, some, [], ltb, ◌==◌,
  All,
}
use strom.Dashboard.Chart.{Numbers, JsValue, finite, at}
use strom.Dashboard.MetricDetail.{Metric, ten_minutes, DetailState}
use strom.Dashboard.Health.{HealthData, HealthPage, render_health}
use strom.Dashboard.Health.Laws.{IsWired, render_health-IsWired}

abbrev naturals : Numbers
naturals = record {
  Number = ℕ;
  of_ℕ = λ k. k;
  sub = λ a b. a - b;
  mul = λ a b. a * b;
  div = λ a b. a / b;
  lt = ltb;
  is_zero = λ a. a == 0;
}

abbrev add : ℕ → ℕ → ℕ
add a b = a + b

abbrev to_fixed : ℕ → ℕ → Text
to_fixed digits value = decimal value

abbrev extract : Metric → ℕ → Option (JsValue ℕ)
extract label instant = some (finite instant)

abbrev health : HealthData ℕ
health = record {
  version = codes "1.0";
  uptime_seconds = some 61;
  disk_free_bytes = 2048;
  cpu_temperature_celsius = none;
  cpu_usage_percent = some 7;
  memory_used_bytes = 1024;
  memory_total_bytes = 4096;
}

abbrev page : HealthPage ℕ ℕ
page = record {
  health = some health;
  version_badge = none;
  cards = [];
  chart = record {
    label = none;
    metric_window = ten_minutes;
    modal_open = false;
    metric_history = [];
    metric_history_long = [];
    trend_cache = λ label. none;
    y_ticks = [];
    is_empty = true;
    guide = none;
  };
}

abbrev idle : DetailState
idle = record {
  label = none;
  metric_window = ten_minutes;
  modal_open = false;
  refresh_timer = none;
  timers = [];
  next_handle = 1;
  awaiting = 0;
}

render_health-IsWired_test :
    All (IsWired idle) (render_health naturals add to_fixed (λ r. at r) extract 60_000 page).cards
render_health-IsWired_test =
    render_health-IsWired naturals add to_fixed (λ r. at r) extract 60_000 health page idle refl
