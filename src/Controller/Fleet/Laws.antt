-- ===== src/Controller/Fleet/Laws.antt =====
-- The counts of the page.
use strom.Prelude.{
  text_eq, text_eq_iff, codes, ◌⊎◌, inl, inr, ◌&&◌, ℕ, ◌+◌, ◌≡◌, refl, ap, ◌∙◌, Text, Bool, true,
  false, ◌||◌, List, [], ◌∷◌, ltb, length, keep, arith,
}
use strom.Controller.Format.{
  StatusSeverity, error, warning, success, default, status_to_severity, comms_state_to_severity,
}
use strom.Dashboard.Status.{to_lower_case}
use strom.Controller.NodeCard.{
  NodeRecord, UpsSummary, alerting, is_alert, hides_comms, status_color,
}
use strom.Controller.Fleet.{
  Attention, count_ups, count_node, attention_from, ups_attention, is_offline, is_degraded,
  has_alerts, alert_count,
}

abbrev pub bit : Bool → ℕ
bit true = 1
bit false = 0

abbrev ups_alert : StatusSeverity → ℕ
ups_alert error = 1
ups_alert warning = 1
ups_alert _ = 0

abbrev ups_alerts : List UpsSummary → ℕ
ups_alerts [] = 0
ups_alerts (ups ∷ rest) = ups_alert (status_to_severity ups.status) + ups_alerts rest

-- What each node adds: one for itself if it is offline, one if its link is degraded, and the rows on its card.
abbrev pub alerts : List NodeRecord → ℕ
alerts [] = 0
alerts (node ∷ nodes) =
    bit (is_offline node) + bit (is_degraded node) + length (alerting node) + alerts nodes

abbrev total : Attention → ℕ
total a = a.errors + a.warnings

length-keep :
    (p : NodeRecord → Bool) (node : NodeRecord) (nodes : List NodeRecord)
    → length (keep p (node ∷ nodes)) ≡ bit (p node) + length (keep p nodes)
length-keep p node nodes = ground arith

total-count_ups :
    (a : Attention) (severity : StatusSeverity)
    → total (count_ups a severity) ≡ total a + ups_alert severity
total-count_ups a error = omega arith
total-count_ups a warning = omega arith
total-count_ups a success = omega arith
total-count_ups a default = omega arith

total-count_node :
    (a : Attention) (upses : List UpsSummary)
    → total (count_node a upses) ≡ total a + ups_alerts upses
unfolding count_node
total-count_node a [] = omega arith
total-count_node a (ups ∷ rest) = grind (
  arith,
  total-count_node (count_ups a (status_to_severity ups.status)) rest,
  total-count_ups a (status_to_severity ups.status),
)

abbrev all_ups : List NodeRecord → ℕ
all_ups [] = 0
all_ups (node ∷ nodes) = ups_alerts node.ups_summaries + all_ups nodes

total-attention_from :
    (a : Attention) (nodes : List NodeRecord)
    → total (attention_from a nodes) ≡ total a + all_ups nodes
unfolding attention_from
total-attention_from a [] = omega arith
total-attention_from a (node ∷ nodes) = grind (
  arith,
  total-attention_from (count_node a node.ups_summaries) nodes,
  total-count_node a node.ups_summaries,
)

severity-alert : (severity : StatusSeverity) → ups_alert severity ≡ bit (is_alert severity)
severity-alert error = refl
severity-alert warning = refl
severity-alert success = refl
severity-alert default = refl

ups_alerts-keep :
    (upses : List UpsSummary)
    → ups_alerts upses
      ≡ length (keep (λ summary. is_alert (status_to_severity summary.status)) upses)
ups_alerts-keep [] = refl
ups_alerts-keep (ups ∷ rest) =
    ground (arith, ups_alerts-keep rest, severity-alert (status_to_severity ups.status))

ups_alerts-alerting : (node : NodeRecord) → ups_alerts node.ups_summaries ≡ length (alerting node)
unfolding alerting
ups_alerts-alerting node = ups_alerts-keep node.ups_summaries

alerts-sum :
    (nodes : List NodeRecord)
    → alerts nodes
      ≡ length (keep is_offline nodes) + length (keep is_degraded nodes) + all_ups nodes
alerts-sum [] = refl
alerts-sum (node ∷ nodes) = grind (
  arith,
  alerts-sum nodes,
  ups_alerts-alerting node,
  length-keep is_offline node nodes,
  length-keep is_degraded node nodes,
)

ltb-or : (a b c d : ℕ) → (ltb 0 a || ltb 0 b || ltb 0 c || ltb 0 d) ≡ ltb 0 (a + b + c + d)
ltb-or a b c d = ground arith

alert_count-sum : (nodes : List NodeRecord) → alert_count nodes ≡ alerts nodes
unfolding alert_count ups_attention
alert_count-sum nodes =
    grind
      (arith, alerts-sum nodes, total-attention_from (record { errors = 0; warnings = 0 }) nodes)

-- The page counts for every node one alert if it is offline, one if its link is degraded, and one
-- for each UPS that its card lists under the alerts; the count is shown as an alarm
-- exactly if it is not zero.
pub alert_count-eq :
    (nodes : List NodeRecord)
    → (alert_count nodes ≡ alerts nodes) × (has_alerts nodes ≡ ltb 0 (alerts nodes))
unfolding alert_count has_alerts
alert_count-eq nodes = (
  alert_count-sum nodes,
  ltb-or (length (keep is_offline nodes)) (length (keep is_degraded nodes))
        (ups_attention nodes).errors (ups_attention nodes).warnings
      ∙ ap (ltb 0) (alert_count-sum nodes),
)

healthy-quiet :
    (t : Text) → text_eq t (codes "healthy") ≡ true → comms_state_to_severity t ≡ success
unfolding comms_state_to_severity to_lower_case text_eq codes
healthy-quiet t e = rw ((text_eq_iff t (codes "healthy")).0 e)

online-quiet :
    (t : Text)
    → text_eq t (codes "adopted-online") ≡ true
    → (status_color t ≡ success) × (text_eq t (codes "adopted-offline") ≡ false)
unfolding status_color text_eq codes
online-quiet t e = rw ((text_eq_iff t (codes "adopted-online")).0 e) (refl, refl)

pending-color : (t : Text) → text_eq t (codes "pending") ≡ true → status_color t ≡ warning
unfolding status_color
pending-color t e = rw e

or-and-cases : (a b c : Bool) → (a || (b && c)) ≡ true → (a ≡ true) ⊎ ((b ≡ true) × (c ≡ true))
or-and-cases true b c e = inl refl
or-and-cases false true true e = inr (refl, refl)
or-and-cases false true false e = cc
or-and-cases false false c e = cc

-- A card leaves the state of the link out only if the node is pending, with the colour of a warning,
-- or if it is online, in the colour of success, and the page counts it neither as offline nor as
-- degraded.
pub hides_comms-quiet :
    (node : NodeRecord)
    → hides_comms node ≡ true
    → (status_color node.status ≡ warning)
      ⊎ ((status_color node.status ≡ success)
          × ((is_offline node ≡ false) × (is_degraded node ≡ false)))
unfolding hides_comms is_offline is_degraded
hides_comms-quiet node e =
    elim (or-and-cases (text_eq node.status (codes "pending"))
      (text_eq node.status (codes "adopted-online")) (text_eq node.comms_state (codes "healthy"))
      e) [
        | inl pending ↦ inl (pending-color node.status pending)
        | inr (online, healthy) ↦ inr (
          (online-quiet node.status online).0,
          (
            rw ((online-quiet node.status online).1, healthy-quiet node.comms_state healthy),
            rw (healthy-quiet node.comms_state healthy),
          ),
        )
      ]
