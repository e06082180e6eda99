-- ===== src/Dashboard/Sparkline/Laws.antt =====
-- What a sparkline plots.
use strom.Prelude.{
  ℕ, ◌+◌, ◌-◌, ◌<◌, ◌≡◌, refl, ap, sym, ◌∙◌, Option, none, some, List, [], ◌∷◌, map, length, arith,
}
use strom.Dashboard.Chart.{Numbers}
use strom.Dashboard.Sparkline.{
  TrendSample, TrendPoint, Measured, Spark, measured, place_from, spark_from, least_from,
  greatest_from, build_sparkline,
}

module _ {T Number : Type 0} where
  abbrev pub bare : TrendPoint T Number → Measured T Number
  bare p = record { timestamp = p.timestamp; value = p.value }

  abbrev bare_spark : Option (Spark T Number) → List (Measured T Number)
  bare_spark none = []
  bare_spark (some s) = map bare s.plotted

  abbrev spark_xs : Option (Spark T Number) → List Number
  spark_xs none = []
  spark_xs (some s) = map (λ p. p.x) s.plotted

module _ (n : Numbers) {T : Type 0} where
  open n use {Number, of_ℕ, mul, div}

  -- The abscissas: whole multiples of the step, from an index on.
  abbrev pub steps : ℕ → Number → List (Measured T Number) → List Number
  steps index step [] = []
  steps index step (p ∷ ps) = mul (of_ℕ index) step ∷ steps (index + 1) step ps

  place_from-bare :
      (index : ℕ) (step height least greatest : Number) (ps : List (Measured T Number))
      → (map bare (place_from n index step height least greatest ps) ≡ ps)
        × (map (λ p. p.x) (place_from n index step height least greatest ps) ≡ steps index step ps)
  place_from-bare index step height least greatest [] = (refl, refl)
  place_from-bare index step height least greatest (p ∷ ps) =
      let rest = place_from-bare (index + 1) step height least greatest ps in
      (ap (p ∷◌) rest.0, ap (mul (of_ℕ index) step ∷◌) rest.1)

  spark_from-bare :
      (width height : Number) (ps : List (Measured T Number)) (s : Spark T Number)
      → spark_from n width height ps ≡ some s
      → (map bare s.plotted ≡ ps)
        × ((step : Number) × (map (λ p. p.x) s.plotted ≡ steps 0 step ps))
        × (1 < length ps)
  spark_from-bare width height [] s e = cc
  spark_from-bare width height (p ∷ []) s e = cc
  spark_from-bare width height (p ∷ q ∷ rest) s e =
      let least = least_from n p.value (q ∷ rest) in
      let greatest = greatest_from n p.value (q ∷ rest) in
      let step : Number = div width (of_ℕ (length (p ∷ q ∷ rest) - 1)) in
      let points = place_from-bare 0 step height least greatest (p ∷ q ∷ rest) in
      (ap bare_spark (sym e) ∙ points.0, (step, ap spark_xs (sym e) ∙ points.1), omega arith)

  -- A sparkline plots exactly the samples with a finite value, as they come, at whole multiples of one
  -- step from the left; it has at least two.
  pub build_sparkline-measured :
      (samples : List (TrendSample T Number)) (width height : Number) (s : Spark T Number)
      → build_sparkline n samples width height ≡ some s
      → (map bare s.plotted ≡ measured samples)
        × ((step : Number) × (map (λ p. p.x) s.plotted ≡ steps 0 step (measured samples)))
        × (1 < length (measured samples))
  unfolding build_sparkline
  build_sparkline-measured samples width height s e =
      spark_from-bare width height (measured samples) s e
