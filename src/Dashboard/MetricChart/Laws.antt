-- ===== src/Dashboard/MetricChart/Laws.antt =====
-- What the hover can show after a render.
use strom.Prelude.{
  ℕ, ◌-◌, ◌≡◌, refl, sym, subst, Bool, true, false, Option, none, some, List, [], ◌∷◌, map, arith,
  All, leb, ltb, Bool-cases, inl, inr, ◌==◌, ◌≤◌, keep, if◌then◌else◌,
}
use strom.Dashboard.Chart.{
  Numbers, JsValue, finite, infinity, minus_infinity, not_a_number, Instant, at, invalid_date,
  Usable, Point, Series, usable, insert, sort_by_timestamp, build_from, build_time_series_chart,
  nearest,
}
use strom.Dashboard.Chart.Nearest.{nearest_from-All}
use strom.Dashboard.Chart.Sorted.{bare, build_from-bare}
use strom.Dashboard.MetricDetail.{Metric, MetricWindow, is_live}
use strom.Dashboard.MetricChart.{
  MetricChart, Cached, Tick, is_from, plot_width, plot_height, window_ms, metric_index,
  instant_distance, snap, snap_cached, cached_for, plotted_of, to_sample, with_series,
  window_samples, render_metric_detail_chart, handle_metric_detail_hover,
}

module _ {Number : Type 0} (P : Usable Number → Type 0) where
  All-insert :
      (p : Usable Number) (ps : List (Usable Number)) → P p → All P ps → All P (insert p ps)
  All-insert p [] h k = (h, tt)
  All-insert p (q ∷ ps) h k = elim (Bool-cases (leb p.timestamp q.timestamp)) [
    | inl e ↦ rw e (h, k)
    | inr e ↦ rw e (k.0, All-insert p ps h k.1)
  ]

  All-sort : (ps : List (Usable Number)) → All P ps → All P (sort_by_timestamp ps)
  unfolding sort_by_timestamp
  All-sort [] h = tt
  All-sort (p ∷ ps) h = All-insert p (sort_by_timestamp ps) h.0 (All-sort ps h.1)

  abbrev pub OfPoint : Point Number → Type 0
  OfPoint p = P (bare p)

  All-bare : (points : List (Point Number)) → All P (map bare points) → All OfPoint points
  All-bare [] h = tt
  All-bare (p ∷ points) h = (h.0, All-bare points h.1)

  OfGuide : Option (Point Number) → Type 0
  OfGuide none = Unit {0}
  OfGuide (some p) = P (bare p)

module _ (n : Numbers) (P : Usable (n.Number) → Type 0) where
  open n use {Number, of_ℕ, lt}

  plotted-All :
      (start_time end_time : ℕ) (width height : Number) (ps : List (Usable Number))
      → All P ps
      → All (OfPoint P) (plotted_of n (build_from n start_time end_time width height ps))
  plotted-All start_time end_time width height [] h = tt
  plotted-All start_time end_time width height (p ∷ []) h = tt
  plotted-All start_time end_time width height (p ∷ q ∷ rest) h =
      let points : List (Point Number) =
        plotted_of n (build_from n start_time end_time width height (p ∷ q ∷ rest)) in
      let same : map bare points ≡ p ∷ q ∷ rest =
        build_from-bare n start_time end_time width height (p ∷ q ∷ rest) _ refl in
      All-bare P points (subst (All P) (sym same) h)

  snap-All :
      (rel_x : Number) (ticks : List (Tick Number)) (points : List (Point Number))
      → All (OfPoint P) points
      → OfGuide P (snap n rel_x ticks points)
  unfolding OfGuide nearest
  snap-All rel_x [] points h = tt
  snap-All rel_x (t ∷ ticks) [] h = tt
  snap-All rel_x (t ∷ ticks) (p ∷ points) h =
      nearest_from-All ltb (λ (q : Point Number). instant_distance q.timestamp _) (OfPoint P) p
        (p ∷ points) h.0 h

  snap_cached-All :
      (rel_x : Number) (cached : Option (Cached Number))
      → ((c : Cached Number) → cached ≡ some c → All (OfPoint P) c.plotted)
      → OfGuide P (snap_cached n rel_x cached)
  unfolding OfGuide
  snap_cached-All rel_x none h = tt
  snap_cached-All rel_x (some c) h = snap-All rel_x c.x_ticks c.plotted (h c refl)

-- A property that each drawn sample has.
module _ (n : Numbers) {R : Type 0} (add : n.Number → n.Number → n.Number) (time_of : R → Instant)
    (extract : Metric → R → Option (JsValue n.Number)) (P : Usable (n.Number) → Type 0) where
  open n use {Number, of_ℕ}

  abbrev pub drawn_samples : ℕ → Metric → MetricChart R Number → List (Usable Number)
  drawn_samples now label s =
      usable
        (map (to_sample n time_of extract label) (window_samples n time_of now s.metric_window s))

  metric_index_self : (label : Metric) → (metric_index label == metric_index label) ≡ true
  metric_index_self label = ground arith

  hover-series :
      (now : ℕ) (rel_x : Number) (label : Metric) (series : Option (Series Number))
      (s : MetricChart R Number)
      → All (OfPoint P) (plotted_of n series)
      → OfGuide P (
          snap_cached n rel_x
            (cached_for n (some label) (with_series n add now label series s).trend_cache))
  hover-series now rel_x label series s h =
      rw (metric_index_self label) (snap-All n P rel_x _ (plotted_of n series) h)

  hover-render :
      (inside : Bool) (now : ℕ) (rel_x : Number) (label : Metric) (s : MetricChart R Number)
      → s.label ≡ some label
      → s.modal_open ≡ true
      → All P (drawn_samples now label s)
      → OfGuide P
          (handle_metric_detail_hover n inside rel_x
            (render_metric_detail_chart n add time_of extract now s)).guide
  unfolding handle_metric_detail_hover render_metric_detail_chart build_time_series_chart
  hover-render false now rel_x label s l o h = unfold OfGuide in tt
  hover-render true now rel_x label s l o h =
      let start_time : ℕ = now - window_ms s.metric_window in
      let series : Option (Series Number) =
        build_from n start_time now (of_ℕ plot_width) (of_ℕ plot_height)
          (sort_by_timestamp (drawn_samples now label s)) in
      rw (l, o)
        (hover-series now rel_x label series s (
          plotted-All n P start_time now (of_ℕ plot_width) (of_ℕ plot_height) _
            (All-sort P (drawn_samples now label s) h)))

  -- The samples that the agent has sent for a window.
  abbrev pub sent_samples : MetricWindow → MetricChart R Number → List R
  sent_samples w s = if is_live w then s.metric_history else s.metric_history_long

  -- What a sample is for the chart: its date, and its number for the metric, if it has both and the
  -- date is in the window.
  abbrev pub Suits : ℕ → Metric → R → Type 0
  Suits start_time label r =
      (timestamp : ℕ) (value : Number)
      → time_of r ≡ at timestamp
      → extract label r ≡ some (finite value)
      → start_time ≤ timestamp
      → P (record { timestamp = timestamp; value = value })

  abbrev kept : ℕ → Metric → Bool → R → List R → List (Usable Number)
  kept start_time label b r rest =
      usable (map (to_sample n time_of extract label) (if b then r ∷ rest else rest))

  kept-All :
      (start_time : ℕ) (label : Metric) (r : R) (rest : List R) (time : Instant)
      (value : Option (JsValue Number))
      → time_of r ≡ time
      → extract label r ≡ value
      → Suits start_time label r
      → All P (usable (map (to_sample n time_of extract label) rest))
      → All P (kept start_time label (is_from start_time time) r rest)
  unfolding usable
  kept-All start_time label r rest invalid_date value e g suits h = h
  kept-All start_time label r rest (at timestamp) none e g suits h =
      elim (Bool-cases (leb start_time timestamp)) [ inl b ↦ rw (b, e, g) h | inr b ↦ rw b h ]
  kept-All start_time label r rest (at timestamp) (some (finite value)) e g suits h =
      elim (Bool-cases (leb start_time timestamp)) [
        | inl b ↦ rw (b, e, g) (suits timestamp value e g (ground arith), h)
        | inr b ↦ rw b h
      ]
  kept-All start_time label r rest (at timestamp) (some infinity) e g suits h =
      elim (Bool-cases (leb start_time timestamp)) [ inl b ↦ rw (b, e, g) h | inr b ↦ rw b h ]
  kept-All start_time label r rest (at timestamp) (some minus_infinity) e g suits h =
      elim (Bool-cases (leb start_time timestamp)) [ inl b ↦ rw (b, e, g) h | inr b ↦ rw b h ]
  kept-All start_time label r rest (at timestamp) (some not_a_number) e g suits h =
      elim (Bool-cases (leb start_time timestamp)) [ inl b ↦ rw (b, e, g) h | inr b ↦ rw b h ]

  window-All :
      (start_time : ℕ) (label : Metric) (rs : List R)
      → All (Suits start_time label) rs
      → All P (
          usable (
            map
              (to_sample n time_of extract label)
              (keep (λ r. is_from start_time (time_of r)) rs)))
  window-All start_time label [] h = unfold usable in tt
  window-All start_time label (r ∷ rs) h =
      kept-All start_time label r (keep (λ r'. is_from start_time (time_of r')) rs) (time_of r)
        (extract label r) refl refl h.0 (window-All start_time label rs h.1)

  -- Whatever the cursor, the guide that the hover shows after a render of the open dialog is at a
  -- sample that the agent has sent for the chosen window, with a date in that window and a finite value
  -- of the shown metric: it has each property that all such samples have.
  pub hover-drawn :
      (inside : Bool) (now : ℕ) (rel_x : Number) (label : Metric) (s : MetricChart R Number)
      → s.label ≡ some label
      → s.modal_open ≡ true
      → All (Suits (now - window_ms s.metric_window) label) (sent_samples s.metric_window s)
      → (p : Point Number)
      → (handle_metric_detail_hover n inside rel_x
          (render_metric_detail_chart n add time_of extract now s)).guide
        ≡ some p
      → P (bare p)
  unfolding OfGuide window_samples
  hover-drawn inside now rel_x label s l o h p e = subst (OfGuide P) e (
      hover-render inside now rel_x label s l o
        (window-All (now - window_ms s.metric_window) label (sent_samples s.metric_window s) h))
