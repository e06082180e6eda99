-- ===== src/Dashboard/Health/Laws.antt =====
-- What the cards of the node's health open.
use strom.Prelude.{
  ℕ, ◌≡◌, ◌≢◌, refl, arith, Text, true, false, Option, none, some, List, [], ◌∷◌, map, All,
}
use strom.Dashboard.Chart.{Numbers, JsValue, Instant}
use strom.Dashboard.MetricDetail.{Metric, DetailState, open_metric_detail_modal, select_begin}
use strom.Dashboard.Health.{
  HealthData, HealthPage, Card, metric_of, is_entry, card_of, card_values, render_metric_trend,
  render_health, click_card,
}

-- A click on an interactive card opens the dialog for a metric, and any other card does nothing and
-- has no trend.
abbrev pub IsWired : {Number : Type 0} → DetailState → Card Number → Type 0
IsWired s card =
    (card.interactive ≡ true
      → (metric : Metric) × ((metric_of card.label ≡ some metric)
          × (((click_card true card.label s).label ≡ some metric)
              × ((click_card true card.label s).modal_open ≡ true))))
    × (card.interactive ≡ false → (click_card true card.label s ≡ s) × (card.trend ≡ none))

none-bare : (entry : Option Metric) → entry ≡ none → is_entry entry ≢ true
none-bare none e = λ i. cc
none-bare (some metric) e = cc

some-full : (entry : Option Metric) (metric : Metric) → entry ≡ some metric → is_entry entry ≢ false
some-full none metric e = cc
some-full (some metric) other e = λ i. cc

opened :
    (label : Text) (s : DetailState) (metric : Metric)
    → metric_of label ≡ some metric
    → ((click_card true label s).label ≡ some metric)
      × ((click_card true label s).modal_open ≡ true)
unfolding click_card open_metric_detail_modal select_begin
opened label s metric e = rw e (ground arith, ground arith)

module _ (n : Numbers) {R : Type 0} where
  open n use {Number}

  card-IsWired :
      (time_of : R → Instant) (extract : Metric → R → Option (JsValue Number)) (history : List R)
      (label value : Text) (s : DetailState) (entry : Option Metric)
      → metric_of label ≡ entry
      → IsWired s (card_of n time_of extract history (label, value))
  unfolding click_card open_metric_detail_modal select_begin render_metric_trend
  card-IsWired time_of extract history label value s none e =
      (λ i. absurd (none-bare (metric_of label) e i), λ i. (rw e, rw e))
  card-IsWired time_of extract history label value s (some metric) e = (
    λ i. (metric, (e, opened label s metric e)),
    λ i. absurd (some-full (metric_of label) metric e i),
  )

  cards-IsWired :
      (time_of : R → Instant) (extract : Metric → R → Option (JsValue Number)) (history : List R)
      (values : List (Text × Text)) (s : DetailState)
      → All (IsWired s) (map (card_of n time_of extract history) values)
  cards-IsWired time_of extract history [] s = tt
  cards-IsWired time_of extract history ((label, value) ∷ values) s = (
    card-IsWired time_of extract history label value s (metric_of label) refl,
    cards-IsWired time_of extract history values s,
  )

  -- After the health is drawn, every card is wired: a click on an interactive one opens the dialog
  -- with the metric of its label, and a card that is not interactive has no trend and does nothing.
  pub render_health-IsWired :
      (add : Number → Number → Number) (to_fixed : ℕ → Number → Text) (time_of : R → Instant)
      (extract : Metric → R → Option (JsValue Number)) (now : ℕ) (health : HealthData Number)
      (page : HealthPage R Number) (s : DetailState)
      → page.health ≡ some health
      → All (IsWired s) (render_health n add to_fixed time_of extract now page).cards
  unfolding render_health
  render_health-IsWired add to_fixed time_of extract now health page s e =
      rw e (cards-IsWired time_of extract page.chart.metric_history (card_values to_fixed health) s)
