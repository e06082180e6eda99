-- ===== src/Dashboard/Chart/Ending.antt =====
-- The loop that computes the gridlines ends.
use strom.Prelude.{ℕ, zero, suc, ◌+◌, ◌≤◌, ◌<◌, ◌≡◌, refl, [], arith}
use strom.Dashboard.Chart.{ticks_from, first_tick, compute_time_ticks}

-- A loop that has passed the end.
ticks_from-late :
    (fuel tick end_time interval : ℕ)
    → end_time < tick
    → ticks_from fuel tick end_time interval ≡ []
ticks_from-late zero tick end_time interval late = refl
ticks_from-late (suc fuel) tick end_time interval late = ground arith

ticks_from-more :
    (total fuel tick end_time interval : ℕ)
    → 0 < interval
    → end_time < tick + fuel
    → fuel ≤ total
    → ticks_from total tick end_time interval ≡ ticks_from fuel tick end_time interval
ticks_from-more total zero tick end_time interval h enough le =
    ticks_from-late total tick end_time interval (omega arith)
ticks_from-more zero (suc fuel) tick end_time interval h enough le = absurd (omega arith)
ticks_from-more (suc total) (suc fuel) tick end_time interval h enough le = ground (
  arith,
  ticks_from-more total fuel (tick + interval) end_time interval h (omega arith) (omega arith),
)

-- The loop ends by its own condition: if the interval is positive, it computes the same gridlines
-- with whatever number of rounds above the end it is cut off.
pub compute_time_ticks-ends :
    (rounds start_time end_time interval : ℕ)
    → 0 < interval
    → end_time < rounds
    → ticks_from rounds (first_tick start_time interval) end_time interval
      ≡ compute_time_ticks start_time end_time interval
unfolding compute_time_ticks
compute_time_ticks-ends rounds start_time end_time interval h le =
    ticks_from-more rounds (end_time + 1) (first_tick start_time interval) end_time interval h
      (omega arith) (omega arith)
