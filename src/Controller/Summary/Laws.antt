-- ===== src/Controller/Summary/Laws.antt =====
-- The summary of a series against all of its values.
use strom.Prelude.{◌≡◌, refl, Bool, true, false, some, List, [], ◌∷◌, length, All, if◌then◌else◌}
use strom.Dashboard.Chart.Nearest.{IsOrder}
use strom.Controller.Summary.{
  SeriesPoint, SeriesSummary, last_of, least_of, greatest_of, summarize_series,
}

picked :
    {Number : Type 0} (P : Number → Type 0) (b : Bool) (x y : Number)
    → P x
    → P y
    → P (if b then x else y)
picked P true x y h k = h
picked P false x y h k = k

module _ {T Number : Type 0} (lt : Number → Number → Bool) where
  -- No value is below the least one, none is above the greatest one.
  abbrev pub AllFrom : Number → List (SeriesPoint T Number) → Type 0
  AllFrom least points = All (λ p. lt p.value least ≡ false) points

  abbrev pub AllTo : Number → List (SeriesPoint T Number) → Type 0
  AllTo greatest points = All (λ p. lt greatest p.value ≡ false) points

  Bounds : Number → List (SeriesPoint T Number) → Number → Type 0
  Bounds first points least = (lt first least ≡ false) × AllFrom least points

  Caps : Number → List (SeriesPoint T Number) → Number → Type 0
  Caps first points greatest = (lt greatest first ≡ false) × AllTo greatest points

  least-round :
      IsOrder lt
      → (least : Number) (p : SeriesPoint T Number) (points : List (SeriesPoint T Number))
        (b : Bool)
      → lt p.value least ≡ b
      → Bounds p.value points (least_of lt p.value points)
      → Bounds least points (least_of lt least points)
      → Bounds least (p ∷ points) (least_of lt (if b then p.value else least) points)
  unfolding Bounds
  least-round o least p points true e (here, later) old =
      (o.not_lt_trans _ _ _ (o.asymmetric _ _ e) here, (here, later))
  least-round o least p points false e new (here, later) =
      (here, (o.not_lt_trans _ _ _ e here, later))

  least_of-Bounds :
      IsOrder lt
      → (least : Number) (points : List (SeriesPoint T Number))
      → Bounds least points (least_of lt least points)
  least_of-Bounds o least [] = unfold Bounds in (o.irreflexive _, tt)
  least_of-Bounds o least (p ∷ points) =
      least-round o least p points (lt p.value least) refl (least_of-Bounds o p.value points)
        (least_of-Bounds o least points)

  greatest-round :
      IsOrder lt
      → (greatest : Number) (p : SeriesPoint T Number) (points : List (SeriesPoint T Number))
      → (b : Bool) → lt greatest p.value ≡ b
      → Caps p.value points (greatest_of lt p.value points)
      → Caps greatest points (greatest_of lt greatest points)
      → Caps greatest (p ∷ points) (greatest_of lt (if b then p.value else greatest) points)
  unfolding Caps
  greatest-round o greatest p points true e (here, later) old =
      (o.not_lt_trans _ _ _ here (o.asymmetric _ _ e), (here, later))
  greatest-round o greatest p points false e new (here, later) =
      (here, (o.not_lt_trans _ _ _ here e, later))

  greatest_of-Caps :
      IsOrder lt
      → (greatest : Number) (points : List (SeriesPoint T Number))
      → Caps greatest points (greatest_of lt greatest points)
  greatest_of-Caps o greatest [] = unfold Caps in (o.irreflexive _, tt)
  greatest_of-Caps o greatest (p ∷ points) =
      greatest-round o greatest p points (lt greatest p.value) refl
        (greatest_of-Caps o p.value points) (greatest_of-Caps o greatest points)

  -- A value that the series has.
  abbrev pub OneOf : Number → List (SeriesPoint T Number) → Type 1
  OneOf value points = (P : Number → Type 0) → All (λ p. P p.value) points → P value

  least_of-OneOf :
      (first : Number) (points : List (SeriesPoint T Number)) (P : Number → Type 0)
      → P first
      → All (λ p. P p.value) points
      → P (least_of lt first points)
  least_of-OneOf first [] P h k = h
  least_of-OneOf first (p ∷ points) P h k =
      least_of-OneOf (if lt p.value first then p.value else first) points P
        (picked P (lt p.value first) p.value first k.0 h) k.1

  greatest_of-OneOf :
      (first : Number) (points : List (SeriesPoint T Number)) (P : Number → Type 0)
      → P first
      → All (λ p. P p.value) points
      → P (greatest_of lt first points)
  greatest_of-OneOf first [] P h k = h
  greatest_of-OneOf first (p ∷ points) P h k =
      greatest_of-OneOf (if lt first p.value then p.value else first) points P
        (picked P (lt first p.value) p.value first k.0 h) k.1

  -- The text of a chart for a screen reader is about its data: of a series with points, the range that
  -- `summarizeSeries` gives bounds every value, both of its ends are values of the series, and the count
  -- is that of the points.
  pub summarize_series_lem :
      IsOrder lt
      → (p : SeriesPoint T Number) (points : List (SeriesPoint T Number))
      → (s : SeriesSummary T Number) × ((summarize_series lt (p ∷ points) ≡ some s)
          × (AllFrom s.least (p ∷ points)
              × (AllTo s.greatest (p ∷ points)
                  × (OneOf s.least (p ∷ points)
                      × (OneOf s.greatest (p ∷ points) × (s.count ≡ length (p ∷ points)))))))
  unfolding summarize_series Bounds Caps
  summarize_series_lem o p points =
      let low = least_of-Bounds o p.value points in
      let high = greatest_of-Caps o p.value points in
      (
        record {
          latest = (last_of lt p points).value;
          latest_at = (last_of lt p points).timestamp;
          least = least_of lt p.value points;
          greatest = greatest_of lt p.value points;
          count = length (p ∷ points);
        },
        (
          refl,
          (
            (low.0, low.1),
            (
              (high.0, high.1),
              (
                λ P h. least_of-OneOf p.value points P h.0 h.1,
                (λ P h. greatest_of-OneOf p.value points P h.0 h.1, refl),
              ),
            ),
          ),
        ),
      )
