-- ===== src/Controller/Alerts.antt =====
-- controller/web/src/pages/AlertsPage.tsx: the alert rules and their form. Each `async` function is
-- cut at its `await`; the answer of a confirmation is an argument, and JavaScript's numbers are a
-- parameter.
pub mod Laws
mod Tests
use strom.Prelude.{
  ℕ, suc, ◌≡◌, Text, codes, decimal, if◌then◌else◌, Bool, true, false, Option, none, some, List, [],
  ◌∷◌, ◌++◌,
}
use strom.Controller.Format.{Thrown, error_object, humanize_error}
use strom.Controller.NodeDialog.{Reply, ok, failed}
use strom.Controller.Api.{
  Field, Request, text, number, fetch_alert_rules, fetch_alert_events, create_alert_rule,
  delete_alert_rule, test_alert_rule,
}

-- `ALERT_KINDS`
pub data AlertKind : Type 0 where
  node_offline comms_lost on_battery low_battery : AlertKind

unfoldable pub kind_text : AlertKind → Text
unfolding codes
kind_text node_offline = codes "node_offline"
kind_text comms_lost = codes "comms_lost"
kind_text on_battery = codes "on_battery"
kind_text low_battery = codes "low_battery"

-- JavaScript's numbers: `Number(text)`, the number of a literal, whether a number counts as true,
-- which zero and NaN do not, and its text in JSON.
pub record JsNumbers : Type 1 where
  pub Number : Type 0
  pub of_text : Text → Number
  pub of_ℕ : ℕ → Number
  pub is_truthy : Number → Bool
  pub to_json : Number → Text
  pub is_truthy-of_ℕ : (k : ℕ) → is_truthy (of_ℕ (suc k)) ≡ true

pub record RuleForm (Number : Type 0) : Type 0 where
  pub kind : AlertKind
  pub webhook_url : Text
  pub debounce_seconds : Number
  pub threshold : Text

abbrev pub first_form : (n : JsNumbers) → RuleForm (n.Number)
first_form n = record {
  kind = node_offline;
  webhook_url = [];
  debounce_seconds = n.of_ℕ 300;
  threshold = codes "20";
}

pub record Toast : Type 0 where
  pub text : Text
  pub is_error : Bool

-- `R` and `E` are the types of a rule and of an event.
pub record AlertsPage (Number R E : Type 0) : Type 0 where
  pub rules : List R
  pub events : List E
  pub error : Option Text
  pub form : RuleForm Number
  pub sent : List Request
  pub toasts : List Toast

abbrev is_low_battery : AlertKind → Bool
is_low_battery low_battery = true
is_low_battery _ = false

module _ (n : JsNumbers) where
  open n use {Number, of_text, of_ℕ, is_truthy, to_json}

  abbrev low_battery_fields : Bool → RuleForm Number → List Field
  low_battery_fields false form = []
  low_battery_fields true form =
      record { name = codes "threshold"; value = number (to_json (of_text form.threshold)) }
      ∷ record { name = codes "ups_var"; value = text (codes "battery.charge") }
      ∷ []

  -- The argument of `createAlertRule` in `handleCreate`.
  unfoldable pub rule_payload : RuleForm Number → List Field
  unfolding kind_text codes
  rule_payload form =
      record { name = codes "kind"; value = text (kind_text form.kind) }
      ∷ record { name = codes "webhook_url"; value = text form.webhook_url }
      ∷ record { name = codes "debounce_seconds"; value = number (to_json form.debounce_seconds) }
      ∷ low_battery_fields (is_low_battery form.kind) form

  -- `|| 300`
  abbrev pub or_default : Number → Number
  or_default value = if is_truthy value then value else of_ℕ 300

-- `Array.isArray(list) ? list : []`
abbrev or_none : {A : Type 0} → Option (List A) → List A
or_none none = []
or_none (some list) = list

abbrev message_of : Thrown → Text
message_of (error_object message) = message
message_of _ = codes "Unknown error"

module _ {Number R E : Type 0} where
  abbrev send : List Request → AlertsPage Number R E → AlertsPage Number R E
  send requests s = record s { sent = s.sent ++ requests }

  abbrev toast : Text → Bool → AlertsPage Number R E → AlertsPage Number R E
  toast message is_error s = record s {
    toasts = s.toasts ++ record { text = message; is_error = is_error } ∷ [];
  }

  unfoldable pub load_begin : AlertsPage Number R E → AlertsPage Number R E
  unfolding fetch_alert_rules fetch_alert_events
  load_begin s = send (fetch_alert_rules ∷ fetch_alert_events 50 ∷ []) s

  unfoldable pub load_end :
      Reply (Option (List R) × Option (List E)) → AlertsPage Number R E → AlertsPage Number R E
  load_end (ok (rules, events)) s = record s {
    rules = or_none rules;
    events = or_none events;
    error = none;
  }
  load_end (failed thrown) s = record s { error = some (message_of thrown) }

  -- The kind in the message is that of the form at the click.
  unfoldable pub create_end : AlertKind → Reply Unit → AlertsPage Number R E → AlertsPage Number R E
  unfolding load_begin humanize_error kind_text codes
  create_end kind (ok done) s =
      load_begin (toast (codes "Created " ++ (kind_text kind ++ codes " alert rule.")) false s)
  create_end kind (failed thrown) s =
      toast (humanize_error thrown (codes "Alert rule creation failed.")) true s

  unfoldable pub delete_begin : Bool → ℕ → AlertsPage Number R E → AlertsPage Number R E
  unfolding delete_alert_rule
  delete_begin false id s = s
  delete_begin true id s = send (delete_alert_rule id ∷ []) s

  unfoldable pub delete_end : ℕ → Reply Unit → AlertsPage Number R E → AlertsPage Number R E
  unfolding load_begin humanize_error decimal codes
  delete_end id (ok done) s =
      load_begin (toast (codes "Deleted alert rule " ++ (decimal id ++ codes ".")) false s)
  delete_end id (failed thrown) s = toast (humanize_error thrown (codes "Delete failed.")) true s

  unfoldable pub test_begin : ℕ → AlertsPage Number R E → AlertsPage Number R E
  unfolding test_alert_rule
  test_begin id s = send (test_alert_rule id ∷ []) s

  unfoldable pub test_end : ℕ → Reply Unit → AlertsPage Number R E → AlertsPage Number R E
  unfolding load_begin humanize_error decimal codes
  test_end id (ok done) s =
      load_begin (toast (codes "Test-fired alert rule " ++ (decimal id ++ codes ".")) false s)
  test_end id (failed thrown) s = toast (humanize_error thrown (codes "Test-fire failed.")) true s

  -- The inputs of the form.
  unfoldable pub change_kind : AlertKind → AlertsPage Number R E → AlertsPage Number R E
  change_kind kind s = record s { form = record s.form { kind = kind } }

  unfoldable pub change_webhook_url : Text → AlertsPage Number R E → AlertsPage Number R E
  change_webhook_url url s = record s { form = record s.form { webhook_url = url } }

  unfoldable pub change_threshold : Text → AlertsPage Number R E → AlertsPage Number R E
  change_threshold value s = record s { form = record s.form { threshold = value } }

module _ (n : JsNumbers) {R E : Type 0} where
  open n use {Number, of_text}

  unfoldable pub create_begin : AlertsPage Number R E → AlertsPage Number R E
  unfolding create_alert_rule rule_payload
  create_begin s = send (create_alert_rule (rule_payload n s.form) ∷ []) s

  unfoldable pub change_debounce_seconds : Text → AlertsPage Number R E → AlertsPage Number R E
  change_debounce_seconds value s = record s {
    form = record s.form { debounce_seconds = or_default n (of_text value) };
  }
