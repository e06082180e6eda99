-- ===== src/Dashboard/Sparkline.antt =====
-- The trend of a metric card in agent/internal/api/web/app.js: `buildSparkline`. A sample's timestamp,
-- which the sparkline only passes on, has the type `T`.
pub mod Laws
mod Tests
use strom.Prelude.{ℕ, ◌+◌, ◌-◌, Option, none, some, List, [], ◌∷◌, length, if◌then◌else◌}
use strom.Dashboard.Chart.{Numbers, or_one}

pub record TrendSample (T Number : Type 0) : Type 0 where
  pub timestamp : T
  pub value : Option Number

pub record TrendPoint (T Number : Type 0) : Type 0 where
  pub timestamp : T
  pub value : Number
  pub x : Number
  pub y : Number

pub record Measured (T Number : Type 0) : Type 0 where
  pub timestamp : T
  pub value : Number

pub record Spark (T Number : Type 0) : Type 0 where
  pub plotted : List (TrendPoint T Number)
  pub least : Number
  pub greatest : Number

module _ {T Number : Type 0} where
  abbrev add_measured : T → Option Number → List (Measured T Number) → List (Measured T Number)
  add_measured timestamp none rest = rest
  add_measured timestamp (some value) rest = record { timestamp = timestamp; value = value } ∷ rest

  -- The first loop: no value, or one that is not finite, is `none`.
  unfoldable pub measured : List (TrendSample T Number) → List (Measured T Number)
  measured [] = []
  measured (sample ∷ samples) = add_measured sample.timestamp sample.value (measured samples)

module _ (n : Numbers) {T : Type 0} where
  open n use {Number, of_ℕ, sub, mul, div, lt}

  abbrev pub least_from : Number → List (Measured T Number) → Number
  least_from least [] = least
  least_from least (p ∷ rest) = least_from (if lt p.value least then p.value else least) rest

  abbrev pub greatest_from : Number → List (Measured T Number) → Number
  greatest_from greatest [] = greatest
  greatest_from greatest (p ∷ rest) =
      greatest_from (if lt greatest p.value then p.value else greatest) rest

  -- The `forEach`, from an index on.
  abbrev pub place_from :
      ℕ → Number → Number → Number → Number → List (Measured T Number) → List (TrendPoint T Number)
  place_from index step height least greatest [] = []
  place_from index step height least greatest (p ∷ rest) =
      record {
        timestamp = p.timestamp;
        value = p.value;
        x = mul (of_ℕ index) step;
        y = sub height (mul (div (sub p.value least) (or_one n (sub greatest least))) height);
      }
      ∷ place_from (index + 1) step height least greatest rest

  abbrev pub spark_from : Number → Number → List (Measured T Number) → Option (Spark T Number)
  spark_from width height [] = none
  spark_from width height (p ∷ []) = none
  spark_from width height (p ∷ q ∷ rest) =
      let least = least_from p.value (q ∷ rest) in
      let greatest = greatest_from p.value (q ∷ rest) in
      let step = div width (of_ℕ (length (p ∷ q ∷ rest) - 1)) in
      some (record {
        plotted = place_from 0 step height least greatest (p ∷ q ∷ rest);
        least = least;
        greatest = greatest;
      })

  unfoldable pub build_sparkline :
      List (TrendSample T Number) → Number → Number → Option (Spark T Number)
  unfolding measured
  build_sparkline samples width height = spark_from width height (measured samples)
