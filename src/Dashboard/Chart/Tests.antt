-- ===== src/Dashboard/Chart/Tests.antt =====
-- Charts over the natural numbers.
use mathlib.Core.List.{Perm}
use strom.Prelude.{
  ℕ, ◌+◌, ◌-◌, ◌*◌, ◌/◌, ◌≤◌, ◌≡◌, ◌↔◌, refl, true, none, some, List, [], ◌∷◌, map, arith, any,
  ◌==◌, ltb,
}
use strom.Dashboard.Chart.{
  Numbers, Sample, Usable, Series, at, invalid_date, finite, infinity, nearest, ticks_from,
  first_tick, compute_time_ticks, build_time_series_chart,
}
use strom.Dashboard.Chart.Ending.{compute_time_ticks-ends}
use strom.Dashboard.Chart.Ticks.{compute_time_ticks_iff}
use strom.Dashboard.Chart.Sorted.{IsSorted, Selects, bare, build-IsSorted}
use strom.Dashboard.Chart.Nearest.{IsOrder, NoneNearer, nearest_lem}

abbrev naturals : Numbers
naturals = record {
  Number = ℕ;
  of_ℕ = λ k. k;
  sub = λ a b. a - b;
  mul = λ a b. a * b;
  div = λ a b. a / b;
  lt = ltb;
  is_zero = λ a. a == 0;
}

ticks_test : compute_time_ticks 5 31 10 ≡ 10 ∷ 20 ∷ 30 ∷ []
unfolding compute_time_ticks
ticks_test = refl

compute_time_ticks_iff_example :
    (any (λ u. u == 20) (compute_time_ticks 5 31 10) ≡ true)
    ↔ ((k : ℕ) × (20 ≡ k * 10) × (5 ≤ 20) × (20 ≤ 31))
compute_time_ticks_iff_example = compute_time_ticks_iff 5 31 10 20 (omega arith)

compute_time_ticks-ends_example : ticks_from 50 (first_tick 5 10) 31 10 ≡ compute_time_ticks 5 31 10
compute_time_ticks-ends_example = compute_time_ticks-ends 50 5 31 10 (omega arith) (omega arith)

-- Two usable samples out of order, one with no value, one with an infinite one and one with no date.
abbrev samples : List (Sample ℕ)
samples =
    record { timestamp = at 30; value = some (finite 4) }
    ∷ record { timestamp = at 20; value = none }
    ∷ record { timestamp = at 25; value = some infinity }
    ∷ record { timestamp = at 10; value = some (finite 2) }
    ∷ record { timestamp = invalid_date; value = some (finite 9) }
    ∷ []

abbrev series : Series ℕ
series = record {
  plotted =
      record { timestamp = 10; value = 2; x = 0; y = 50 }
      ∷ record { timestamp = 30; value = 4; x = 100; y = 0 }
      ∷ [];
  least = 2;
  greatest = 4;
}

samples-series : build_time_series_chart naturals samples 10 30 100 50 ≡ some series
unfolding build_time_series_chart
samples-series = refl

build-IsSorted_example :
    IsSorted (map bare series.plotted)
    × ((ps : List (Usable ℕ)) × (Selects ps samples × Perm (map bare series.plotted) ps))
build-IsSorted_example = build-IsSorted naturals samples 10 30 100 50 series samples-series

ltb-IsOrder : IsOrder ltb
ltb-IsOrder = record {
  asymmetric = λ a b h. ground arith;
  irreflexive = λ a. ground arith;
  not_lt_trans = λ a b c g h. ground arith;
}

abbrev distance_from : ℕ → ℕ → ℕ
distance_from target x = (x - target) + (target - x)

nearest_lem_test :
    (nearest ltb (distance_from 17) 10 (20 ∷ 30 ∷ []) ≤ 30)
    × NoneNearer ltb
        (distance_from 17)
        (nearest ltb (distance_from 17) 10 (20 ∷ 30 ∷ []))
        (10 ∷ 20 ∷ 30 ∷ [])
nearest_lem_test =
    nearest_lem ltb (distance_from 17) ltb-IsOrder (λ x. x ≤ 30) 10 (20 ∷ 30 ∷ [])
      (omega arith, (omega arith, (omega arith, tt)))
