-- ===== src/Dashboard/Chart.antt =====
-- The charts of agent/internal/api/web/app.js: gridlines, time series and the hover's nearest points.
-- Instants are whole milliseconds; values and coordinates are JavaScript numbers, a parameter with
-- the operations that the charts use. A sample's timestamp is what `new Date(…).getTime()` gives.
pub mod Ending
pub mod Ticks
pub mod Sorted
pub mod Nearest
mod Tests
use strom.Prelude.{
  ℕ, zero, suc, ◌+◌, ◌-◌, ◌*◌, ◌/◌, ◌%◌, Bool, true, false, ◌||◌, Option, none, some, List, [], ◌∷◌,
  ◌++◌, map, ltb, leb, ◌==◌, if◌then◌else◌, length, keep,
}

-- `computeTimeTicks`: the loop with fuel, and its start at the first multiple from `startTime` on.
abbrev ticks_from : ℕ → ℕ → ℕ → ℕ → List ℕ
ticks_from zero tick end_time interval = []
ticks_from (suc fuel) tick end_time interval =
    let rest = ticks_from fuel (tick + interval) end_time interval in
    if leb tick end_time then tick ∷ rest else []

unfoldable pub first_tick : ℕ → ℕ → ℕ
first_tick start_time interval = (start_time + interval - 1) / interval * interval

-- Each round adds a positive interval, so that the fuel is enough.
unfoldable pub compute_time_ticks : ℕ → ℕ → ℕ → List ℕ
unfolding first_tick
compute_time_ticks start_time end_time interval =
    ticks_from (end_time + 1) (first_tick start_time interval) end_time interval

-- The labelled gridlines: `index % labelStride === 0`.
unfoldable pub label_stride : ℕ → ℕ
label_stride count = if leb ((count + 5) / 6) 1 then 1 else (count + 5) / 6

abbrev labelled_from {ℓ} : {A : Type ℓ} → ℕ → ℕ → List A → List A
labelled_from stride index [] = []
labelled_from stride index (tick ∷ ticks) =
    let rest = labelled_from stride (index + 1) ticks in
    if index % stride == 0 then tick ∷ rest else rest

unfoldable pub labelled {ℓ} : {A : Type ℓ} → List A → List A
unfolding label_stride
labelled ticks = labelled_from (label_stride (length ticks)) 0 ticks

-- The two searches of `handleMetricDetailHover`, over the distance of each element.
module _ {ℓ κ} {A : Type ℓ} {D : Type κ} (lt : D → D → Bool) (distance : A → D) where
  abbrev nearest_from : A → List A → A
  nearest_from best [] = best
  nearest_from best (x ∷ xs) = nearest_from (if lt (distance x) (distance best) then x else best) xs

  unfoldable pub nearest : A → List A → A
  nearest first rest = nearest_from first (first ∷ rest)

-- JavaScript's finite numbers.
pub record Numbers : Type 1 where
  pub Number : Type 0
  pub of_ℕ : ℕ → Number
  pub sub : Number → Number → Number
  pub mul : Number → Number → Number
  pub div : Number → Number → Number
  pub lt : Number → Number → Bool
  pub is_zero : Number → Bool

-- A usable sample; `x` and `y` are set when all are known.
pub record Usable (Number : Type 0) : Type 0 where
  pub timestamp : ℕ
  pub value : Number

pub record Point (Number : Type 0) : Type 0 where
  pub timestamp : ℕ
  pub value : Number
  pub x : Number
  pub y : Number

-- What `typeof` calls a number, and what `new Date(…).getTime()` gives.
pub data JsValue (Number : Type 0) : Type 0 where
  finite : Number → JsValue Number
  infinity minus_infinity not_a_number : JsValue Number

pub data Instant : Type 0 where
  at : ℕ → Instant
  invalid_date : Instant

-- A sample as the extractor and the date see it; the extractor's `null` and `undefined` are `none`.
pub record Sample (Number : Type 0) : Type 0 where
  pub timestamp : Instant
  pub value : Option (JsValue Number)

-- What `buildTimeSeriesChart` returns, without the text of the points.
pub record Series (Number : Type 0) : Type 0 where
  pub plotted : List (Point Number)
  pub least : Number
  pub greatest : Number

module _ {Number : Type 0} where
  abbrev add_dated : Instant → Number → List (Usable Number) → List (Usable Number)
  add_dated (at timestamp) value rest = record { timestamp = timestamp; value = value } ∷ rest
  add_dated invalid_date value rest = rest

  abbrev pub add_usable :
      Option (JsValue Number) → Instant → List (Usable Number) → List (Usable Number)
  add_usable none instant rest = rest
  add_usable (some (finite value)) instant rest = add_dated instant value rest
  add_usable (some infinity) instant rest = rest
  add_usable (some minus_infinity) instant rest = rest
  add_usable (some not_a_number) instant rest = rest

  -- The first loop of `buildTimeSeriesChart`.
  unfoldable pub usable : List (Sample Number) → List (Usable Number)
  usable [] = []
  usable (sample ∷ samples) = add_usable sample.value sample.timestamp (usable samples)

  -- `sort((a, b) => a.timestamp - b.timestamp)`, which is stable.
  abbrev pub insert : Usable Number → List (Usable Number) → List (Usable Number)
  insert p [] = p ∷ []
  insert p (q ∷ rest) =
      let later = insert p rest in if leb p.timestamp q.timestamp then p ∷ q ∷ rest else q ∷ later

  unfoldable pub sort_by_timestamp : List (Usable Number) → List (Usable Number)
  sort_by_timestamp [] = []
  sort_by_timestamp (p ∷ rest) = insert p (sort_by_timestamp rest)

module _ (n : Numbers) where
  open n use {Number, of_ℕ, sub, mul, div, lt, is_zero}

  -- `Math.min` and `Math.max` of a first value and the others.
  abbrev min_from : Number → List (Usable Number) → Number
  min_from least [] = least
  min_from least (p ∷ rest) = min_from (if lt p.value least then p.value else least) rest

  abbrev max_from : Number → List (Usable Number) → Number
  max_from greatest [] = greatest
  max_from greatest (p ∷ rest) = max_from (if lt greatest p.value then p.value else greatest) rest

  -- `d || 1`
  abbrev pub or_one : Number → Number
  or_one d = if is_zero d then of_ℕ 1 else d

  abbrev place : ℕ → ℕ → Number → Number → Number → Number → Usable Number → Point Number
  place start_time end_time width height least greatest p = record {
    timestamp = p.timestamp;
    value = p.value;
    x =
        mul
          (div (sub (of_ℕ p.timestamp) (of_ℕ start_time))
            (or_one (sub (of_ℕ end_time) (of_ℕ start_time))))
          width;
    y = sub height (mul (div (sub p.value least) (or_one (sub greatest least))) height);
  }

  abbrev pub build_from : ℕ → ℕ → Number → Number → List (Usable Number) → Option (Series Number)
  build_from start_time end_time width height [] = none
  build_from start_time end_time width height (p ∷ []) = none
  build_from start_time end_time width height (p ∷ q ∷ rest) =
      let least = min_from p.value (q ∷ rest) in
      let greatest = max_from p.value (q ∷ rest) in
      some (record {
        plotted = map (place start_time end_time width height least greatest) (p ∷ q ∷ rest);
        least = least;
        greatest = greatest;
      })

  -- `buildTimeSeriesChart`. The test for two usable samples stands behind the sort here, which
  -- keeps their number.
  unfoldable pub build_time_series_chart :
      List (Sample Number) → ℕ → ℕ → Number → Number → Option (Series Number)
  unfolding usable sort_by_timestamp
  build_time_series_chart samples start_time end_time width height =
      build_from start_time end_time width height (sort_by_timestamp (usable samples))
