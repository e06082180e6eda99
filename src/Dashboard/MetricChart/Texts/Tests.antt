-- ===== src/Dashboard/MetricChart/Texts/Tests.antt =====
-- The texts of a chart over the natural numbers.
use strom.Prelude.{ℕ, ◌+◌, ◌-◌, ◌*◌, ◌/◌, ◌≡◌, refl, codes, decimal, List, [], ◌∷◌, ltb, ◌==◌}
use strom.Dashboard.Chart.{Numbers, Point}
use strom.Dashboard.MetricChart.Texts.{
  axis_html, tooltip_html, x_labels, y_labels, points_text, summary_text, range_text,
}

abbrev naturals : Numbers
naturals = record {
  Number = ℕ;
  of_ℕ = λ k. k;
  sub = λ a b. a - b;
  mul = λ a b. a * b;
  div = λ a b. a / b;
  lt = ltb;
  is_zero = λ a. a == 0;
}

abbrev points : List (Point ℕ)
points =
    record { timestamp = 5; value = 7; x = 0; y = 182 }
    ∷ record { timestamp = 9; value = 3; x = 524; y = 0 }
    ∷ []

points_shown : points_text naturals (λ a b. a + b) decimal decimal points ≡ codes "60,192 584,10"
unfolding points_text codes decimal
points_shown = refl

summary_shown :
    summary_text naturals
      (λ a b. a + b)
      decimal
      decimal
      (record { plotted = points; least = 3; greatest = 7 })
    ≡ codes "Now: 3 · Min: 3 · Max: 7"
unfolding summary_text codes decimal
summary_shown = refl

range_shown : range_text naturals (λ a b. a + b) decimal decimal decimal points ≡ codes "5 → 9"
unfolding range_text codes decimal
range_shown = refl

axis_shown :
    axis_html "top"
      (y_labels naturals (λ a b. a + b) decimal decimal (record { value = 7; y = 100 } ∷ []))
    ≡ codes "<span style=\"top:0%\">7</span>"
unfolding axis_html y_labels codes decimal
axis_shown = refl

axis_times :
    axis_html "left" (
      x_labels naturals
        (λ a b. a + b)
        decimal
        decimal
        decimal
        (record { timestamp = 9; x = 540 } ∷ []))
    ≡ codes "<span style=\"left:100%\">9</span>"
unfolding axis_html x_labels codes decimal
axis_times = refl

tooltip_shown :
    tooltip_html (codes "<1") (codes "now") ≡ codes "<strong>&lt;1</strong><span>now</span>"
unfolding tooltip_html codes
tooltip_shown = refl
