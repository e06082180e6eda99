-- ===== src/Controller/NodeCard.antt =====
-- controller/web/src/components/NodeCard.tsx: what a card shows of a node, and its handlers, which
-- are cut at their `await`. The texts of the confirmation are left out.
use strom.Prelude.{
  ◌==◌, ℕ, ◌+◌, Text, codes, decimal, text_eq, Bool, true, false, ◌||◌, ◌&&◌, List, [], ◌∷◌, ◌++◌,
  keep, if◌then◌else◌,
}
use strom.Controller.Format.{
  StatusSeverity, error, warning, success, default, NodeNames, format_node_reference,
  humanize_error, format_comms_state, status_to_severity, comms_state_to_severity, or_text,
}
use strom.Controller.NodeDialog.{Reply, ok, failed}
use strom.Controller.Api.{Request, adopt_node, forget_node}

pub record UpsSummary : Type 0 where
  pub name : Text
  pub status : Text

-- The fields of a node's record that the page and its cards read; `port` is 0 if there is none.
pub record NodeRecord : Type 0 where
  pub names : NodeNames
  pub address : Text
  pub port : ℕ
  pub version : Text
  pub ups_count : ℕ
  pub location_label : Text
  pub site_label : Text
  pub adopted : Bool
  pub live : Bool
  pub status : Text
  pub comms_state : Text
  pub poll_failures : ℕ
  pub last_poll_error : Text
  pub ups_summaries : List UpsSummary

unfoldable pub status_color : Text → StatusSeverity
unfolding text_eq codes
status_color status =
    if text_eq status (codes "pending")
    then warning
    else if text_eq status (codes "adopted-online")
    then success
    else error

-- What stands beside the title: a chip, a button, or neither.
pub data Corner : Type 0 where
  online_chip offline_chip adopt_button bare : Corner

unfoldable pub corner : NodeRecord → Corner
unfolding text_eq codes
corner node =
    if text_eq node.status (codes "adopted-online")
    then online_chip
    else if text_eq node.status (codes "adopted-offline")
    then offline_chip
    else if text_eq node.status (codes "pending") && node.live
    then adopt_button
    else bare

pub record Row : Type 0 where
  pub label : Text
  pub value : Text

-- `join(" / ")` of the labels that are not empty.
abbrev pub location : Text → Text → Text
location [] [] = []
location [] (c ∷ site) = c ∷ site
location (c ∷ label) [] = c ∷ label
location (c ∷ label) (d ∷ site) = (c ∷ label) ++ (codes " / " ++ d ∷ site)

unfoldable pub hides_comms : NodeRecord → Bool
unfolding text_eq codes
hides_comms node =
    text_eq node.status (codes "pending")
    || (text_eq node.status (codes "adopted-online") && text_eq node.comms_state (codes "healthy"))

unfoldable pub comms_rows : NodeRecord → List Row
unfolding hides_comms format_comms_state codes
comms_rows node =
    if hides_comms node
    then []
    else record {
      label = codes "Comms";
      value = format_comms_state node.comms_state node.poll_failures node.last_poll_error;
    }
      ∷ []

unfoldable pub card_rows : NodeRecord → List Row
unfolding comms_rows decimal codes
card_rows node =
    (record { label = codes "Version"; value = or_text node.version (codes "dev") }
      ∷ record { label = codes "UPS count"; value = decimal node.ups_count }
      ∷ [])
    ++ (comms_rows node
        ++ record {
          label = codes "Location";
          value = or_text (location node.location_label node.site_label) (codes "unassigned");
        }
          ∷ [])

abbrev pub is_alert : StatusSeverity → Bool
is_alert error = true
is_alert warning = true
is_alert _ = false

-- The rows under `UPS alerts`.
unfoldable pub alerting : NodeRecord → List UpsSummary
unfolding status_to_severity
alerting node = keep (λ summary. is_alert (status_to_severity summary.status)) node.ups_summaries

pub record Toast : Type 0 where
  pub text : Text
  pub is_error : Bool

-- The line below the title.
unfoldable pub address_line : NodeRecord → Text
unfolding decimal codes
address_line node =
    or_text node.address (codes "address unavailable")
    ++ (if node.port == 0 then [] else codes " • port " ++ decimal node.port)

-- The colour of a row's value; `default` leaves it.
unfoldable pub value_color : NodeRecord → Text → StatusSeverity
unfolding comms_state_to_severity text_eq codes
value_color node label =
    if text_eq label (codes "Comms") then comms_state_to_severity node.comms_state else default

-- Below the card: nothing, or the button that forgets the node, beside a text unless it can be adopted.
pub data Footer : Type 0 where
  absent forget_alone forget_waiting : Footer

unfoldable pub footer : NodeRecord → Footer
unfolding text_eq codes
footer node =
    if node.adopted
    then absent
    else if text_eq node.status (codes "pending") && node.live
    then forget_alone
    else forget_waiting

-- `changes` counts the calls of `onChanged`; `details` and `upses` have the arguments of the calls of
-- `onOpenDetail` and `onOpenUPS`, in their order.
pub record CardState : Type 0 where
  pub sent : List Request
  pub toasts : List Toast
  pub changes : ℕ
  pub details : List Text
  pub upses : List (Text × Text)

-- A click on the upper part of the card, which only an adopted node's listens to.
unfoldable pub open_details : NodeRecord → CardState → CardState
open_details node s =
    if node.adopted then record s { details = s.details ++ node.names.id ∷ [] } else s

unfoldable pub press_key : Text → NodeRecord → CardState → CardState
unfolding open_details text_eq codes
press_key key node s =
    if text_eq key (codes "Enter") || text_eq key (codes " ") then open_details node s else s

-- A click on a row under `UPS alerts`.
unfoldable pub click_alert : UpsSummary → NodeRecord → CardState → CardState
click_alert summary node s = record s { upses = s.upses ++ (node.names.id, summary.name) ∷ [] }

abbrev toast : Text → Bool → CardState → CardState
toast text is_error s = record s {
  toasts = s.toasts ++ record { text = text; is_error = is_error } ∷ [];
}

unfoldable pub adopt_begin : NodeRecord → CardState → CardState
unfolding adopt_node
adopt_begin node s = record s { sent = s.sent ++ adopt_node node.names.id ∷ [] }

unfoldable pub adopt_end : NodeRecord → Reply Unit → CardState → CardState
unfolding format_node_reference humanize_error codes
adopt_end node (ok done) s =
    let next =
      toast (codes "Adopted " ++ (format_node_reference node.names ++ codes ".")) false s in
    record next { changes = next.changes + 1 }
adopt_end node (failed thrown) s = toast (humanize_error thrown (codes "Adoption failed.")) true s

unfoldable pub forget_begin : Bool → NodeRecord → CardState → CardState
unfolding forget_node
forget_begin false node s = s
forget_begin true node s = record s { sent = s.sent ++ forget_node node.names.id ∷ [] }

unfoldable pub forget_end : NodeRecord → Reply Unit → CardState → CardState
unfolding format_node_reference humanize_error codes
forget_end node (ok done) s =
    let next = toast (codes "Forgot " ++ (format_node_reference node.names ++ codes ".")) false s in
    record next { changes = next.changes + 1 }
forget_end node (failed thrown) s = toast (humanize_error thrown (codes "Forget failed.")) true s
