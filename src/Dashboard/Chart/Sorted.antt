-- ===== src/Dashboard/Chart/Sorted.antt =====
-- What a time series plots.
use mathlib.Core.List.{Perm}
use mathlib.Core.List.Perm
use strom.Prelude.{
  ℕ, ◌+◌, ◌≤◌, ◌<◌, ◌≡◌, ◌↔◌, refl, ap, sym, ◌∙◌, Option, none, some, List, [], ◌∷◌, map, arith,
  leb, length, All, Bool, true, false, Bool-cases, inl, inr,
}
use strom.Dashboard.Chart.{
  Numbers, Usable, Point, Sample, Series, JsValue, finite, infinity, minus_infinity, not_a_number,
  Instant, at, invalid_date, add_usable, usable, insert, sort_by_timestamp, min_from, max_from,
  place, build_from, build_time_series_chart,
}

abbrev is_dated : Instant → Bool
is_dated (at timestamp) = true
is_dated invalid_date = false

module _ {Number : Type 0} where
  abbrev pub IsSorted : List (Usable Number) → Type 0
  IsSorted [] = Unit
  IsSorted (p ∷ rest) = All (λ q. p.timestamp ≤ q.timestamp) rest × IsSorted rest

  -- A plotted point without its coordinates.
  abbrev pub bare : Point Number → Usable Number
  bare p = record { timestamp = p.timestamp; value = p.value }

  abbrev bare_series : Option (Series Number) → List (Usable Number)
  bare_series none = []
  bare_series (some s) = map bare s.plotted

  All-insert :
      (t : ℕ) (p : Usable Number) (rest : List (Usable Number))
      → t ≤ p.timestamp
      → All (λ q. t ≤ q.timestamp) rest
      → All (λ q. t ≤ q.timestamp) (insert p rest)
  All-insert t p [] h k = (h, tt)
  All-insert t p (q ∷ rest) h k = elim (Bool-cases (leb p.timestamp q.timestamp)) [
    | inl e ↦ rw e (h, (k.0, k.1))
    | inr e ↦ rw e (k.0, All-insert t p rest h k.1)
  ]

  All-weaken :
      (t u : ℕ) (rest : List (Usable Number))
      → t ≤ u
      → All (λ q. u ≤ q.timestamp) rest
      → All (λ q. t ≤ q.timestamp) rest
  All-weaken t u [] h k = tt
  All-weaken t u (q ∷ rest) h k = (omega arith, All-weaken t u rest h k.1)

  insert-IsSorted :
      (p : Usable Number) (rest : List (Usable Number)) → IsSorted rest → IsSorted (insert p rest)
  insert-IsSorted p [] s = (tt, tt)
  insert-IsSorted p (q ∷ rest) s = elim (Bool-cases (leb p.timestamp q.timestamp)) [
    | inl e ↦
        let le : p.timestamp ≤ q.timestamp = ground arith in
        rw e ((le, All-weaken p.timestamp q.timestamp rest le s.0), (s.0, s.1))
    | inr e ↦ rw e (All-insert q.timestamp p rest (ground arith) s.0, insert-IsSorted p rest s.1)
  ]

  sort-IsSorted : (ps : List (Usable Number)) → IsSorted (sort_by_timestamp ps)
  unfolding sort_by_timestamp
  sort-IsSorted [] = tt
  sort-IsSorted (p ∷ rest) = insert-IsSorted p _ (sort-IsSorted rest)

  insert-perm : (p : Usable Number) (rest : List (Usable Number)) → Perm (insert p rest) (p ∷ rest)
  insert-perm p [] = Perm.refl _
  insert-perm p (q ∷ rest) = elim (Bool-cases (leb p.timestamp q.timestamp)) [
    | inl e ↦ rw e (Perm.refl _)
    | inr e ↦ rw e (Perm.trans (Perm.cons q (insert-perm p rest)) (Perm.swap p q rest))
  ]

  sort-perm : (ps : List (Usable Number)) → Perm (sort_by_timestamp ps) ps
  unfolding sort_by_timestamp
  sort-perm [] = Perm.refl _
  sort-perm (p ∷ rest) =
      Perm.trans (insert-perm p (sort_by_timestamp rest)) (Perm.cons p (sort-perm rest))

  pub record HasBoth (sample : Sample Number) (p : Usable Number) : Type 0 where
    pub dated : sample.timestamp ≡ at p.timestamp
    pub valued : sample.value ≡ some (finite p.value)

  -- The points are those of the samples that have a date and a finite value, in their order.
  pub data Selects : List (Usable Number) → List (Sample Number) → Type 0 where
    done : Selects [] []
    taken :
        {ps : List (Usable Number)} {samples : List (Sample Number)} (p : Usable Number)
        (sample : Sample Number)
        → HasBoth sample p
        → Selects ps samples
        → Selects (p ∷ ps) (sample ∷ samples)
    skipped :
        {ps : List (Usable Number)} {samples : List (Sample Number)} (sample : Sample Number)
        → ((p : Usable Number) → HasBoth sample p → ⊥)
        → Selects ps samples
        → Selects ps (sample ∷ samples)

  abbrev is_finite : Option (JsValue Number) → Bool
  is_finite (some (finite value)) = true
  is_finite _ = false

  no_date :
      (sample : Sample Number)
      → is_dated sample.timestamp ≡ false
      → (p : Usable Number) → HasBoth sample p
      → ⊥
  no_date sample e p h = let is : is_dated sample.timestamp ≡ true = ap is_dated h.dated in cc

  no_value :
      (sample : Sample Number)
      → is_finite sample.value ≡ false
      → (p : Usable Number) → HasBoth sample p
      → ⊥
  no_value sample e p h = let is : is_finite sample.value ≡ true = ap is_finite h.valued in cc

  add_usable-Selects :
      (sample : Sample Number) (value : Option (JsValue Number)) (instant : Instant)
      (ps : List (Usable Number)) (samples : List (Sample Number))
      → sample.value ≡ value
      → sample.timestamp ≡ instant
      → Selects ps samples
      → Selects (add_usable value instant ps) (sample ∷ samples)
  add_usable-Selects sample none instant ps samples v d h =
      skipped sample (no_value sample (ap is_finite v)) h
  add_usable-Selects sample (some (finite value)) (at timestamp) ps samples v d h =
      taken (record { timestamp = timestamp; value = value }) sample
        (record { dated = d; valued = v }) h
  add_usable-Selects sample (some (finite value)) invalid_date ps samples v d h =
      skipped sample (no_date sample (ap is_dated d)) h
  add_usable-Selects sample (some infinity) instant ps samples v d h =
      skipped sample (no_value sample (ap is_finite v)) h
  add_usable-Selects sample (some minus_infinity) instant ps samples v d h =
      skipped sample (no_value sample (ap is_finite v)) h
  add_usable-Selects sample (some not_a_number) instant ps samples v d h =
      skipped sample (no_value sample (ap is_finite v)) h

  usable-Selects : (samples : List (Sample Number)) → Selects (usable samples) samples
  unfolding usable
  usable-Selects [] = done
  usable-Selects (sample ∷ samples) =
      add_usable-Selects sample sample.value sample.timestamp (usable samples) samples refl refl
        (usable-Selects samples)

module _ (n : Numbers) where
  open n use {Number}

  map-bare :
      (start_time end_time : ℕ) (width height least greatest : Number) (ps : List (Usable Number))
      → map bare (map (place n start_time end_time width height least greatest) ps) ≡ ps
  map-bare start_time end_time width height least greatest [] = refl
  map-bare start_time end_time width height least greatest (p ∷ ps) =
      ap (p ∷◌) (map-bare start_time end_time width height least greatest ps)

  pub build_from-bare :
      (start_time end_time : ℕ) (width height : Number) (ps : List (Usable Number))
      (series : Series Number)
      → build_from n start_time end_time width height ps ≡ some series
      → map bare series.plotted ≡ ps
  build_from-bare start_time end_time width height [] series e = cc
  build_from-bare start_time end_time width height (p ∷ []) series e = cc
  build_from-bare start_time end_time width height (p ∷ q ∷ rest) series e =
      ap bare_series (sym e)
      ∙ map-bare start_time end_time width height (min_from n p.value (q ∷ rest))
          (max_from n p.value (q ∷ rest)) (p ∷ q ∷ rest)

  -- If there is a chart, its points are in the order of their timestamps, and they are exactly those
  -- of the samples that have a date and a finite value, each as often as it occurs: no such sample is
  -- left out, and no other is plotted.
  pub build-IsSorted :
      (samples : List (Sample Number)) (start_time end_time : ℕ) (width height : Number)
      (series : Series Number)
      → build_time_series_chart n samples start_time end_time width height ≡ some series
      → IsSorted (map bare series.plotted)
        × ((ps : List (Usable Number)) × (Selects ps samples × Perm (map bare series.plotted) ps))
  unfolding build_time_series_chart
  build-IsSorted samples start_time end_time width height series e =
      let same =
        build_from-bare start_time end_time width height (sort_by_timestamp (usable samples)) series
          e in
      (
        rw same (sort-IsSorted (usable samples)),
        (usable samples, (usable-Selects samples, rw same (sort-perm (usable samples)))),
      )

  length-insert :
      (p : Usable Number) (rest : List (Usable Number)) → length (insert p rest) ≡ length rest + 1
  length-insert p [] = omega arith
  length-insert p (q ∷ rest) = ground (arith, length-insert p rest)

  length-sort : (ps : List (Usable Number)) → length (sort_by_timestamp ps) ≡ length ps
  unfolding sort_by_timestamp
  length-sort [] = refl
  length-sort (p ∷ rest) = omega (arith, length-insert p (sort_by_timestamp rest), length-sort rest)

  build_from-none :
      (start_time end_time : ℕ) (width height : Number) (ps : List (Usable Number))
      → (build_from n start_time end_time width height ps ≡ none) ↔ (length ps < 2)
  build_from-none start_time end_time width height [] = (λ e. omega arith, λ h. refl)
  build_from-none start_time end_time width height (p ∷ []) = (λ e. omega arith, λ h. refl)
  build_from-none start_time end_time width height (p ∷ q ∷ rest) =
      (λ e. cc, λ h. absurd (omega arith))

  -- There is no chart exactly if fewer than two samples have a finite value and a date.
  pub build-none_iff :
      (samples : List (Sample Number)) (start_time end_time : ℕ) (width height : Number)
      → (build_time_series_chart n samples start_time end_time width height ≡ none)
        ↔ (length (usable samples) < 2)
  unfolding build_time_series_chart
  build-none_iff samples start_time end_time width height =
      rw (← length-sort (usable samples))
        (build_from-none start_time end_time width height (sort_by_timestamp (usable samples)))
