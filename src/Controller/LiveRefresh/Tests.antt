-- ===== src/Controller/LiveRefresh/Tests.antt =====
-- A tab that is hidden and shown again.
use strom.Prelude.{refl, true, false, none, []}
use strom.Controller.LiveRefresh.{Refresher, handle_visibility_change, run_effect}
use strom.Controller.LiveRefresh.Laws.{
  IsSteady, Session, begin, next, mount, change, Session-IsSteady,
}

abbrev fresh : Refresher
fresh = record {
  enabled = false;
  hidden = false;
  mounted = false;
  interval_id = none;
  timers = [];
  next_handle = 1;
  listening = false;
  refreshes = 0;
}

fresh-IsSteady : IsSteady fresh
fresh-IsSteady = record { tracked = refl; listens = refl; runs = refl }

abbrev session :
    Session fresh
      (handle_visibility_change false (handle_visibility_change true (run_effect true fresh)))
session = next (next (next begin (mount true refl)) (change true)) (change false)

Session-IsSteady_example :
    IsSteady
      (handle_visibility_change false (handle_visibility_change true (run_effect true fresh)))
Session-IsSteady_example = Session-IsSteady session fresh-IsSteady
