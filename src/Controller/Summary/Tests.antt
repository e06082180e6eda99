-- ===== src/Controller/Summary/Tests.antt =====
-- Three samples of a load, over the natural numbers.
use strom.Prelude.{ℕ, ◌≡◌, refl, codes, some, none, List, [], ◌∷◌, ltb, arith, decimal}
use strom.Dashboard.Chart.Nearest.{IsOrder}
use strom.Controller.Summary.{SeriesPoint, SeriesSummary, summarize_series, format_ups_metrics}
use strom.Controller.Summary.Laws.{AllFrom, AllTo, OneOf, summarize_series_lem}

ltb-IsOrder : IsOrder ltb
ltb-IsOrder = record {
  asymmetric = λ a b h. ground arith;
  irreflexive = λ a. ground arith;
  not_lt_trans = λ a b c h k. ground arith;
}

abbrev first : SeriesPoint ℕ ℕ
first = record { timestamp = 1; value = 40 }

abbrev others : List (SeriesPoint ℕ ℕ)
others = record { timestamp = 2; value = 55 } ∷ record { timestamp = 3; value = 38 } ∷ []

summarize_series_lem_example :
    (s : SeriesSummary ℕ ℕ) × ((summarize_series ltb (first ∷ others) ≡ some s)
      × (AllFrom ltb s.least (first ∷ others)
          × (AllTo ltb s.greatest (first ∷ others)
              × (OneOf ltb s.least (first ∷ others)
                  × (OneOf ltb s.greatest (first ∷ others) × (s.count ≡ 3))))))
summarize_series_lem_example = summarize_series_lem ltb ltb-IsOrder first others

metrics_text :
    format_ups_metrics decimal (record {
      driver = codes "usbhid-ups";
      battery_charge_percent = some 98;
      load_percent = none;
      runtime_seconds = some 61;
    })
    ≡ codes "98% battery • 1m 1s"
unfolding format_ups_metrics codes decimal
metrics_text = refl
