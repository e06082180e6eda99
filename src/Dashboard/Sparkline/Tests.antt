-- ===== src/Dashboard/Sparkline/Tests.antt =====
-- A sparkline over the natural numbers.
use strom.Prelude.{
  ℕ, ◌-◌, ◌*◌, ◌/◌, ◌<◌, ◌≡◌, refl, none, some, List, [], ◌∷◌, map, ltb, ◌==◌, length,
}
use strom.Dashboard.Chart.{Numbers}
use strom.Dashboard.Sparkline.{TrendSample, Spark, measured, build_sparkline}
use strom.Dashboard.Sparkline.Laws.{bare, steps, build_sparkline-measured}

abbrev naturals : Numbers
naturals = record {
  Number = ℕ;
  of_ℕ = λ k. k;
  sub = λ a b. a - b;
  mul = λ a b. a * b;
  div = λ a b. a / b;
  lt = ltb;
  is_zero = λ a. a == 0;
}

abbrev samples : List (TrendSample ℕ ℕ)
samples =
    record { timestamp = 7; value = some 4 }
    ∷ record { timestamp = 8; value = none }
    ∷ record { timestamp = 9; value = some 2 }
    ∷ []

abbrev spark : Spark ℕ ℕ
spark = record {
  plotted =
      record { timestamp = 7; value = 4; x = 0; y = 0 }
      ∷ record { timestamp = 9; value = 2; x = 100; y = 32 }
      ∷ [];
  least = 2;
  greatest = 4;
}

samples-spark : build_sparkline naturals samples 100 32 ≡ some spark
unfolding build_sparkline
samples-spark = refl

build_sparkline-measured_test :
    (map bare spark.plotted ≡ measured samples)
    × ((step : ℕ) × (map (λ p. p.x) spark.plotted ≡ steps naturals 0 step (measured samples)))
    × (1 < length (measured samples))
build_sparkline-measured_test = build_sparkline-measured naturals samples 100 32 spark samples-spark
