-- ===== src/Controller/NodeDialog/Tests.antt =====
-- A dialog that is switched while replies are on their way.
use strom.Prelude.{
  ℕ, String, str_eq, eq_iff, Text, codes, ◌≡◌, ◌≢◌, refl, true, false, none, some, List, [], ◌∷◌,
  map, arith,
}
use strom.Controller.Format.{format_bytes}
use strom.Controller.NodeDialog.Content.{
  UpsSummary, NodeInfo, NodeHealth, manageable, Content, overview, policy, ups_row, title, content,
}
use strom.Controller.NodeDialog.{
  Node, set_local_ui_policy, release_local_ui_policy, forget_node, ok, NodeDialog, load_end,
  set_node_id, toggle_begin, release_begin, forget_begin,
}
use strom.Controller.NodeDialog.Laws.{
  IsCurrent, Session, start, next, switch, loaded, Session-IsCurrent, begin-sent,
}
use strom.Controller.NodeDialog.Stale.{toggled_late, toggled_late-stale}

abbrev node_of : String → Node
node_of id = record {
  id = id;
  reference = codes id;
  local_ui_policy_managed = true;
  local_ui_policy_enabled = false;
}

abbrev closed : NodeDialog ℕ
closed = record {
  node_id = none;
  active = none;
  node = none;
  health = none;
  error = none;
  tab = 0;
  sent = [];
  toasts = [];
  changes = 0;
  closes = 0;
}

closed-IsCurrent : IsCurrent closed
closed-IsCurrent = record { guarded = refl; shown = tt }

-- Node `a` is opened, then `b`; the reply for `a` comes in after the one for `b`.
abbrev switched : NodeDialog ℕ
switched = load_end false "a" (ok (node_of "a", 1)) (
    load_end false "b" (ok (node_of "b", 2))
      (set_node_id (some "b") (set_node_id (some "a") closed)))

abbrev session : Session closed switched
session =
    next
      (next (next (next start (switch (some "a"))) (switch (some "b")))
        (loaded false "b" (node_of "b") 2 refl))
      (loaded false "a" (node_of "a") 1 refl)

Session-IsCurrent_example : IsCurrent switched
Session-IsCurrent_example = Session-IsCurrent session closed-IsCurrent

abbrev showing : NodeDialog ℕ
showing = record closed { node_id = some "a"; active = some "a"; node = some (node_of "a") }

begin-sent_test :
    ((toggle_begin true showing).sent ≡ set_local_ui_policy "a" true ∷ [])
    × ((release_begin true showing).sent ≡ release_local_ui_policy "a" ∷ [])
    × ((forget_begin true showing).sent ≡ forget_node "a" ∷ [])
begin-sent_test = begin-sent true (node_of "a") showing refl

a-not-b : (node_of "a").id ≢ "b"
a-not-b =
    λ e. let same : str_eq "a" "b" ≡ true = (eq_iff "a" "b").1 e in absurd (ground (arith, same))

toggled_late-stale_test :
    ((toggled_late (codes "Enabled.") (codes "Failed.") (node_of "a") "b" showing).node_id
      ≡ some "b")
    × ((toggled_late (codes "Enabled.") (codes "Failed.") (node_of "a") "b" showing).active
        ≡ some "b")
    × ((toggled_late (codes "Enabled.") (codes "Failed.") (node_of "a") "b" showing).node
        ≡ some (node_of "a"))
    × ((n : Node)
        → (toggled_late (codes "Enabled.") (codes "Failed.") (node_of "a") "b" showing).node
          ≡ some n
        → n.id ≢ "b")
toggled_late-stale_test =
    toggled_late-stale (codes "Enabled.") (codes "Failed.") (node_of "a") "b" showing a-not-b

-- What the dialog shows of a node; numbers are their texts.
abbrev info : NodeInfo Text
info = record {
  names = record {
    display_name = [];
    instance_name = codes "pi";
    hostname = codes "host";
    id = codes "1";
  };
  version = codes "1.2";
  location_label = codes "Hall";
  site_label = codes "North";
  adopted = true;
  local_ui_policy_managed = true;
  local_ui_policy_enabled = false;
  ups_summaries = [];
}

title_named : title (λ t. t) (λ t. t) (some info) ≡ codes "pi"
unfolding title codes
title_named = refl

policy_managed :
    policy (λ t. t) (λ t. t) info ≡ manageable false (codes "Controller-managed: disabled.") true
unfolding policy codes
policy_managed = refl

abbrev measured : NodeHealth Text
measured = record {
  version = [];
  cpu_temperature_celsius = some (codes "41.0");
  disk_free_bytes = some 0;
}

abbrev values_of : Content → List Text
values_of (overview cards inventory) = map (λ card. card.value) cards
values_of _ = []

overview_values :
    values_of (content (λ t. t) (λ t. t) none 0 (some info) (some measured))
    ≡ codes "1.2" ∷ codes "41.0 C" ∷ format_bytes 0 ∷ codes "Hall / North" ∷ []
unfolding content codes
overview_values = refl

abbrev bare_summary : UpsSummary Text
bare_summary = record {
  name = codes "rack";
  display_name = [];
  status = [];
  telemetry = record {
    driver = codes "usbhid-ups";
    battery_charge_percent = none;
    load_percent = none;
    runtime_seconds = none;
  };
}

row_bare : ups_row (λ t. t) (λ t. t) bare_summary ≡ record {
  key = codes "rack";
  title = codes "rack";
  caption = none;
  chip = none;
  readings = codes "usbhid-ups";
}
unfolding ups_row codes
row_bare = refl
