-- ===== src/Controller/Fleet/Tests.antt =====
-- A node that is offline, and a history as a list of entries.
use strom.Prelude.{◌≡◌, codes, refl, ◌⊎◌, false, true, text_eq, List, [], ◌∷◌, ltb}
use strom.Controller.Format.{warning, success}
use strom.Controller.NodeCard.{NodeRecord, hides_comms, status_color}
use strom.Controller.Fleet.{
  Param, Router, open_detail, open_ups, close, has_alerts, alert_count, is_offline, is_degraded,
  view_of,
}
use strom.Controller.Fleet.Laws.{alerts, alert_count-eq, hides_comms-quiet}
use strom.Controller.Fleet.Dialogs.{
  start, opened_detail, opened_ups, closed, detail_view, session-view,
}

abbrev rack : List NodeRecord
rack =
    record {
      names = record {
        display_name = [];
        instance_name = [];
        hostname = codes "rack";
        id = codes "rack";
      };
      address = [];
      port = 0;
      version = [];
      ups_count = 2;
      location_label = [];
      site_label = [];
      adopted = true;
      live = false;
      status = codes "adopted-offline";
      comms_state = codes "degraded";
      poll_failures = 1;
      last_poll_error = [];
      ups_summaries =
          record { name = codes "ups1"; status = codes "OB LB" }
          ∷ record { name = codes "ups2"; status = codes "OL" }
          ∷ [];
    }
    ∷ []

alert_count-eq_example : (alert_count rack ≡ alerts rack) × (has_alerts rack ≡ ltb 0 (alerts rack))
alert_count-eq_example = alert_count-eq rack

abbrev online : NodeRecord
online = record {
  names = record {
    display_name = [];
    instance_name = [];
    hostname = codes "attic";
    id = codes "attic";
  };
  address = [];
  port = 0;
  version = [];
  ups_count = 0;
  location_label = [];
  site_label = [];
  adopted = true;
  live = true;
  status = codes "adopted-online";
  comms_state = codes "healthy";
  poll_failures = 0;
  last_poll_error = [];
  ups_summaries = [];
}

hides_comms-quiet_test :
    (status_color online.status ≡ warning)
    ⊎ ((status_color online.status ≡ success)
        × ((is_offline online ≡ false) × (is_degraded online ≡ false)))
unfolding hides_comms codes text_eq
hides_comms-quiet_test = hides_comms-quiet online refl

abbrev History : Type 0
History = (List Param) × (List (List Param))

abbrev back : List Param → List (List Param) → History
back current [] = (current, [])
back current (ps ∷ past) = (ps, past)

back-current :
    (qs ps : List Param) (rest past : List (List Param)) → past ≡ ps ∷ rest → (back qs past).0 ≡ ps
back-current qs ps rest [] e = cc
back-current qs ps rest (rs ∷ past) e = cc

back-past :
    (qs ps : List Param) (rest past : List (List Param))
    → past ≡ ps ∷ rest
    → (back qs past).1 ≡ rest
back-past qs ps rest [] e = cc
back-past qs ps rest (rs ∷ past) e = cc

abbrev list_router : Router History
list_router = record {
  current = λ h. h.0;
  past = λ h. h.1;
  set_search_params = λ ps h. (ps, h.0 ∷ h.1);
  navigate_back = λ h. back h.0 h.1;
  current-set = λ ps h. refl;
  past-set = λ ps h. refl;
  current-back = λ ps rest h e. back-current h.0 ps rest h.1 e;
  past-back = λ ps rest h e. back-past h.0 ps rest h.1 e;
}

abbrev fresh : History
fresh = ([], [])

abbrev one_open : History
one_open = close list_router (
    open_ups list_router (codes "rack") (codes "ups1")
      (open_detail list_router (codes "rack") fresh))

session-view_example :
    (view_of (list_router.current one_open) ≡ detail_view (codes "rack"))
    × (detail_view (codes "rack") ∷ [] ≡ []
        → (list_router.current one_open ≡ []) × (list_router.past one_open ≡ []))
session-view_example =
    session-view list_router fresh one_open (detail_view (codes "rack") ∷ [])
      (closed (opened_ups (codes "rack") (codes "ups1") (opened_detail (codes "rack") start)))
