-- ===== src/Controller/Fleet.antt =====
-- controller/web/src/pages/FleetPage.tsx: the list of nodes, its counts, and the dialogs that the
-- address names. The router is a parameter; the search parameters are those of the URL standard.
pub mod Params
pub mod Laws
pub mod Dialogs
mod Tests
use strom.Prelude.{
  ℕ, ◌+◌, ◌≡◌, Text, codes, text_eq, Bool, true, false, not, ◌||◌, Option, none, some, List, [],
  ◌∷◌, ltb, length, keep, if◌then◌else◌, ◌==◌,
}
use strom.Controller.Format.{
  Thrown, error_object, StatusSeverity, error, warning, status_to_severity, comms_state_to_severity,
}
use strom.Controller.NodeCard.{NodeRecord, UpsSummary}
use strom.Controller.NodeDialog.{Reply, ok, failed}

pub record Fleet : Type 0 where
  pub nodes : List NodeRecord
  pub loading : Bool
  pub failure : Option Text

-- `loadNodes` up to its `await`.
unfoldable pub load_begin : Bool → Fleet → Fleet
load_begin true s = s
load_begin false s = record s { loading = true }

abbrev message_of : Thrown → Text
message_of (error_object message) = message
message_of _ = codes "Unknown error"

unfoldable pub load_end : Bool → Reply (List NodeRecord) → Fleet → Fleet
load_end silent (ok nodes) s = record s { nodes = nodes; failure = none; loading = false }
load_end true (failed thrown) s = record s { loading = false }
load_end false (failed thrown) s = record s { failure = some (message_of thrown); loading = false }

-- `fleetRefreshSignal` of App.tsx, and the effect on a new signal.
unfoldable pub refresh_fleet : ℕ → ℕ
refresh_fleet signal = signal + 1

unfoldable pub set_reload_signal : (previous next : ℕ) → Fleet → Fleet
unfolding load_begin
set_reload_signal previous next s = if next == previous then s else load_begin false s

abbrev pub is_error : StatusSeverity → Bool
is_error error = true
is_error _ = false

abbrev pub is_warning : StatusSeverity → Bool
is_warning warning = true
is_warning _ = false

unfoldable pub is_offline : NodeRecord → Bool
unfolding comms_state_to_severity text_eq codes
is_offline node =
    text_eq node.status (codes "adopted-offline")
    || is_error (comms_state_to_severity node.comms_state)

unfoldable pub is_degraded : NodeRecord → Bool
unfolding comms_state_to_severity
is_degraded node = is_warning (comms_state_to_severity node.comms_state)

pub record Attention : Type 0 where
  pub errors : ℕ
  pub warnings : ℕ

abbrev pub count_ups : Attention → StatusSeverity → Attention
count_ups summary error = record summary { errors = summary.errors + 1 }
count_ups summary warning = record summary { warnings = summary.warnings + 1 }
count_ups summary _ = summary

unfoldable pub count_node : Attention → List UpsSummary → Attention
unfolding status_to_severity
count_node summary [] = summary
count_node summary (ups ∷ rest) =
    count_node (count_ups summary (status_to_severity ups.status)) rest

unfoldable pub attention_from : Attention → List NodeRecord → Attention
unfolding count_node
attention_from summary [] = summary
attention_from summary (node ∷ nodes) = attention_from (count_node summary node.ups_summaries) nodes

unfoldable pub ups_attention : List NodeRecord → Attention
unfolding attention_from
ups_attention nodes = attention_from (record { errors = 0; warnings = 0 }) nodes

unfoldable pub has_alerts : List NodeRecord → Bool
unfolding is_offline is_degraded ups_attention
has_alerts nodes =
    ltb 0 (length (keep is_offline nodes))
    || ltb 0 (length (keep is_degraded nodes))
    || ltb 0 (ups_attention nodes).errors
    || ltb 0 (ups_attention nodes).warnings

unfoldable pub alert_count : List NodeRecord → ℕ
unfolding is_offline is_degraded ups_attention
alert_count nodes =
    length (keep is_offline nodes)
    + length (keep is_degraded nodes)
    + (ups_attention nodes).errors
    + (ups_attention nodes).warnings

-- `URLSearchParams`: `get` reads the first value, and `set` changes it and drops the later ones.
pub record Param : Type 0 where
  pub key : Text
  pub value : Text

unfoldable pub get : Text → List Param → Option Text
get key [] = none
get key (p ∷ ps) = if text_eq p.key key then some p.value else get key ps

unfoldable pub set : Text → Text → List Param → List Param
set key value [] = record { key = key; value = value } ∷ []
set key value (p ∷ ps) =
    if text_eq p.key key
    then record { key = key; value = value } ∷ keep (λ q. not (text_eq q.key key)) ps
    else p ∷ set key value ps

-- React Router over the browser's history: `past` has the entries behind the current one, the
-- latest first.
pub record Router (H : Type 0) : Type 0 where
  pub current : H → List Param
  pub past : H → List (List Param)
  pub set_search_params : List Param → H → H
  pub navigate_back : H → H
  pub current-set : (ps : List Param) (h : H) → current (set_search_params ps h) ≡ ps
  pub past-set : (ps : List Param) (h : H) → past (set_search_params ps h) ≡ current h ∷ past h
  pub current-back :
      (ps : List Param) (rest : List (List Param)) (h : H)
      → past h ≡ ps ∷ rest
      → current (navigate_back h) ≡ ps
  pub past-back :
      (ps : List Param) (rest : List (List Param)) (h : H)
      → past h ≡ ps ∷ rest
      → past (navigate_back h) ≡ rest

module _ {H : Type 0} (router : Router H) where
  unfoldable pub open_detail : Text → H → H
  unfolding codes
  open_detail id h = router.set_search_params (record { key = codes "node"; value = id } ∷ []) h

  unfoldable pub open_ups : Text → Text → H → H
  unfolding codes set
  open_ups id name h =
      router.set_search_params
        (set (codes "ups") name (set (codes "upsNode") id (router.current h))) h

  -- `closeDetail` and `closeUPS`.
  unfoldable pub close : H → H
  close h = router.navigate_back h

-- The nodes and the UPS whose dialogs are open.
pub record View : Type 0 where
  pub open_node_id : Option Text
  pub open_ups_node_id : Option Text
  pub open_ups_name : Option Text

unfoldable pub view_of : List Param → View
unfolding get codes
view_of ps = record {
  open_node_id = get (codes "node") ps;
  open_ups_node_id = get (codes "upsNode") ps;
  open_ups_name = get (codes "ups") ps;
}
