-- ===== src/Dashboard/MetricChart/Texts.antt =====
-- The texts of the metric dialog's chart in agent/internal/api/web/app.js: its axes, the points of its
-- line, what stands below it, and the tooltip. `fixed` is `toFixed(2)`, `add` JavaScript's sum, and
-- `format` the formatter of the shown metric.
mod Tests
use strom.Prelude.{ℕ, ◌+◌, String, Text, codes, List, [], ◌∷◌, ◌++◌, map}
use strom.Dashboard.Chart.{Numbers, Point, Series, labelled}
use strom.Dashboard.Escape.{escape_html}
use strom.Dashboard.Markup.{Part, markup, value, render_parts}
use strom.Dashboard.MetricChart.{Tick, ValueTick}

-- `METRIC_DETAIL_CHART` and `METRIC_DETAIL_MARGIN`.
abbrev chart_width : ℕ
chart_width = 600

abbrev chart_height : ℕ
chart_height = 220

abbrev margin_left : ℕ
margin_left = 60

abbrev margin_top : ℕ
margin_top = 10

-- A label of an axis, at a percentage of the chart.
pub record Label : Type 0 where
  pub percent : Text
  pub text : Text

abbrev label_html : String → Label → Text
label_html side label =
    codes "<span style=\""
    ++ codes side
    ++ codes ":"
    ++ label.percent
    ++ codes "%\">"
    ++ escape_html label.text
    ++ codes "</span>"

unfoldable pub axis_html : String → List Label → Text
unfolding codes escape_html
axis_html side [] = []
axis_html side (label ∷ rest) = label_html side label ++ axis_html side rest

abbrev pub tooltip_parts : Text → Text → List Part
tooltip_parts shown time =
    markup "<strong>" ∷ value shown ∷ markup "</strong><span>" ∷ value time ∷ markup "</span>" ∷ []

unfoldable pub tooltip_html : Text → Text → Text
unfolding render_parts
tooltip_html shown time = render_parts (tooltip_parts shown time)

-- `join(" ")`
unfoldable pub join_points : List Text → Text
join_points [] = []
join_points (part ∷ []) = part
join_points (part ∷ next ∷ rest) = part ++ b' ' ∷ join_points (next ∷ rest)

module _ (n : Numbers) (add : n.Number → n.Number → n.Number) (fixed : n.Number → Text)
    (format : n.Number → Text) where
  open n use {Number, of_ℕ, mul, div}

  abbrev percent_of : Number → ℕ → ℕ → Text
  percent_of place margin size = fixed (mul (div (add place (of_ℕ margin)) (of_ℕ size)) (of_ℕ 100))

  -- `format_axis` is `formatAxisTimestamp` for the chosen window.
  unfoldable pub x_labels : (ℕ → Text) → List (Tick Number) → List Label
  unfolding labelled
  x_labels format_axis ticks =
      map
        (λ tick. record {
          percent = percent_of tick.x margin_left chart_width;
          text = format_axis tick.timestamp;
        })
        (labelled ticks)

  unfoldable pub y_labels : List (ValueTick Number) → List Label
  y_labels ticks =
      map
        (λ tick. record {
          percent = percent_of tick.y margin_top chart_height;
          text = format tick.value;
        })
        ticks

  abbrev point_text : Point Number → Text
  point_text point =
      fixed (add point.x (of_ℕ margin_left)) ++ b',' ∷ fixed (add point.y (of_ℕ margin_top))

  unfoldable pub points_text : List (Point Number) → Text
  unfolding join_points
  points_text plotted = join_points (map point_text plotted)

  abbrev last_point : Point Number → List (Point Number) → Point Number
  last_point first [] = first
  last_point first (point ∷ rest) = last_point point rest

  -- Below the chart, if it has a point.
  unfoldable pub summary_text : Series Number → Text
  unfolding codes
  summary_text series = summary series.plotted
    where
      summary : List (Point Number) → Text
      summary [] = []
      summary (point ∷ rest) =
          codes "Now: "
          ++ format (last_point point rest).value
          ++ codes " · Min: "
          ++ format series.least
          ++ codes " · Max: "
          ++ format series.greatest

  -- `format_time` is `formatTooltipTimestamp`.
  unfoldable pub range_text : (ℕ → Text) → List (Point Number) → Text
  unfolding codes
  range_text format_time [] = []
  range_text format_time (point ∷ rest) =
      format_time point.timestamp ++ codes " → " ++ format_time (last_point point rest).timestamp
