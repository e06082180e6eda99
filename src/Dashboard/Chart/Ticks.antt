-- ===== src/Dashboard/Chart/Ticks.antt =====
-- Which instants have a gridline, and how many of them have a label.
use native.Mathlib.Nat.{div-add-mod, mod-lt, mul-le-mul_right}
use native.Mathlib.Decide.{dec_lt}
use strom.Prelude.{
  ℕ, zero, suc, ◌+◌, ◌-◌, ◌*◌, ◌/◌, ◌≤◌, ◌<◌, ◌≡◌, ◌≢◌, refl, ap, ◌↔◌, true, arith, any, ◌==◌, leb,
  Bool-cases, inl, inr,
}
use strom.Dashboard.Chart.{ticks_from, first_tick, compute_time_ticks}

module _ (interval end_time t : ℕ) where
  ticks_from_sound :
      (fuel tick a : ℕ)
      → tick ≡ a * interval
      → any (λ u. u == t) (ticks_from fuel tick end_time interval) ≡ true
      → (k : ℕ) × (t ≡ k * interval) × (a ≤ k) × (k * interval ≤ end_time)
  ticks_from_sound zero tick a e h = cc
  ticks_from_sound (suc fuel) tick a e h = elim (Bool-cases (leb tick end_time)) [
    | inr late ↦ absurd (ground arith)
    | inl early ↦ elim (Bool-cases (tick == t)) [
      | inl here ↦ (a, ground arith, omega arith, ground arith)
      | inr other ↦
          let (k, p, q, r) =
            ticks_from_sound fuel (tick + interval) (a + 1) (grind arith) (ground arith) in
          (k, p, omega arith, r)
    ]
  ]

  ticks_from_complete :
      (fuel tick a k : ℕ)
      → tick ≡ a * interval
      → t ≡ k * interval
      → a ≤ k
      → k * interval ≤ end_time
      → k < a + fuel
      → any (λ u. u == t) (ticks_from fuel tick end_time interval) ≡ true
  ticks_from_complete zero tick a k e p q r f = absurd (omega arith)
  ticks_from_complete (suc fuel) tick a k e p q r f =
      let below : a * interval ≤ k * interval = mul-le-mul_right interval q in
      elim (Bool-cases (tick == t)) [
        | inl here ↦ ground arith
        | inr other ↦
            let apart : a ≢ k = λ same. absurd (ground (arith, ap (λ v. v * interval) same)) in
            ground (
              arith,
              ticks_from_complete fuel (tick + interval) (a + 1) k (grind arith) p (omega arith) r
                  (omega arith),
            )
      ]

first_tick_bounds :
    (start_time interval : ℕ)
    → 0 < interval
    → (start_time ≤ first_tick start_time interval)
      × (first_tick start_time interval < start_time + interval)
unfolding first_tick
first_tick_bounds start_time interval h =
    let n : ℕ = start_time + interval - 1 in
    ground (arith, div-add-mod n interval, mod-lt n {m = interval})

-- A multiple that is less than one interval above another is not above it in index.
index_le : (a k interval : ℕ) → a * interval < k * interval + interval → a ≤ k
index_le a k interval h = elim (dec_lt k a) [
  | no p ↦ omega arith
  | yes p ↦
      let up : (k + 1) * interval ≤ a * interval = mul-le-mul_right interval (omega arith) in
      absurd (omega arith)
]

-- The gridlines of a chart are at exactly the multiples of the interval between the two ends, the
-- ends included.
pub compute_time_ticks_iff :
    (start_time end_time interval t : ℕ)
    → 0 < interval
    → (any (λ u. u == t) (compute_time_ticks start_time end_time interval) ≡ true)
      ↔ ((k : ℕ) × (t ≡ k * interval) × (start_time ≤ t) × (t ≤ end_time))
unfolding compute_time_ticks
compute_time_ticks_iff start_time end_time interval t h =
    let a : ℕ = (start_time + interval - 1) / interval in
    let bounds = first_tick_bounds start_time interval h in
    let low : start_time ≤ a * interval = unfold first_tick in bounds.0 in
    let high : a * interval < start_time + interval = unfold first_tick in bounds.1 in
    (
      λ found.
          let (k, p, q, r) =
            ticks_from_sound interval end_time t (end_time + 1) (a * interval) a refl found in
          let above : a * interval ≤ k * interval = mul-le-mul_right interval q in
          (k, p, omega arith, omega arith),
      λ (k, p, q, r).
          ticks_from_complete interval end_time t (end_time + 1) (a * interval) a k refl p
            (index_le a k interval (omega arith)) (omega arith) (grind arith),
    )
