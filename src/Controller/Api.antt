-- ===== src/Controller/Api.antt =====
-- controller/web/src/api.ts: the requests to the controller. A request's body is the object that
-- `JSON.stringify` gets, a field that is `undefined` left out; identifiers are lists of code points.
pub mod Uri
pub mod Routes
mod Tests
use strom.Prelude.{
  ℕ, ◌+◌, Text, codes, decimal, Bool, true, false, Option, none, some, List, [], ◌∷◌, ◌++◌,
  if◌then◌else◌,
}
use strom.Controller.Format.{or_text}
use strom.Controller.Api.Uri.{encode_uri_component, form_encode}

pub data Method : Type 0 where
  get_ post patch delete : Method

-- A number is its text in JSON.
pub data Value : Type 0 where
  text : Text → Value
  number : Text → Value
  flag : Bool → Value
  texts : List Text → Value

pub record Field : Type 0 where
  pub name : Text
  pub value : Value

pub record Header : Type 0 where
  pub name : Text
  pub value : Text

-- `RequestInit`: what a caller leaves out is `none`.
pub record Init : Type 0 where
  pub method : Option Method
  pub headers : Option (List Header)
  pub body : Option (List Field)

pub record Request : Type 0 where
  pub method : Method
  pub path : Text
  pub headers : List Header
  pub body : Option (List Field)

abbrev or_get : Option Method → Method
or_get none = get_
or_get (some method) = method

abbrev pub accept : Header
accept = record { name = codes "Accept"; value = codes "application/json" }

abbrev pub content_type : Header
content_type = record { name = codes "Content-Type"; value = codes "application/json" }

abbrev content_type_for : Option (List Field) → List Header
content_type_for none = []
content_type_for (some body) = content_type ∷ []

-- `...init` comes after `headers` in the object, so that the caller's headers are all there are.
abbrev headers_for : Init → Option (List Header) → List Header
headers_for init none = accept ∷ content_type_for init.body
headers_for init (some headers) = headers

-- The argument of `fetch` in `requestJSON`.
unfoldable pub request_of : Text → Init → Request
unfolding codes
request_of path init = record {
  method = or_get init.method;
  path = path;
  headers = headers_for init init.headers;
  body = init.body;
}

-- `P` is the type of a decoded reply, `error_of` its field `error` (`[]` if it has none), and `empty`
-- is `{}`; `payload` is `none` if the reply cannot be decoded.
pub record Response (P : Type 0) : Type 0 where
  pub is_ok : Bool
  pub status : ℕ
  pub status_text : Text
  pub payload : Option P

pub data Outcome (P : Type 0) : Type 0 where
  resolved : P → Outcome P
  thrown : Text → Outcome P

module _ {P : Type 0} (error_of : P → Text) (empty : P) where
  abbrev pub payload_of : Option P → P
  payload_of none = empty
  payload_of (some payload) = payload

  -- `requestJSON` after the reply has come.
  unfoldable pub settle : Response P → Outcome P
  unfolding decimal codes
  settle response =
      if response.is_ok
      then resolved (payload_of response.payload)
      else thrown (
          or_text (error_of (payload_of response.payload))
            (decimal response.status ++ codes " " ++ response.status_text))

abbrev no_init : Init
no_init = record { method = none; headers = none; body = none }

abbrev with_method : Method → Init
with_method method = record no_init { method = some method }

abbrev with_body : Method → List Field → Init
with_body method body = record { method = some method; headers = none; body = some body }

abbrev pub node_path : Text → Text → Text
node_path id rest = codes "/api/nodes/" ++ (encode_uri_component id ++ rest)

abbrev pub ups_path : Text → Text → Text → Text
ups_path id name rest = node_path id (codes "/ups/" ++ (encode_uri_component name ++ rest))

unfoldable pub fetch_nodes : Request
unfolding request_of codes
fetch_nodes = request_of (codes "/api/nodes") no_init

unfoldable pub fetch_node : Text → Request
unfolding request_of codes encode_uri_component
fetch_node id = request_of (node_path id []) no_init

unfoldable pub fetch_node_health : Text → Request
unfolding request_of codes encode_uri_component
fetch_node_health id = request_of (node_path id (codes "/health")) no_init

unfoldable pub fetch_ups_detail : Text → Text → Request
unfolding request_of codes encode_uri_component
fetch_ups_detail id name = request_of (ups_path id name []) no_init

unfoldable pub fetch_ups_history : Text → Text → Text → ℕ → ℕ → Request
unfolding request_of codes encode_uri_component form_encode decimal
fetch_ups_history id name variable hours limit =
    request_of
      (ups_path id name (
        codes "/history?var="
        ++ (form_encode variable
            ++ (codes "&hours=" ++ (decimal hours ++ (codes "&limit=" ++ decimal limit))))))
      no_init

unfoldable pub run_ups_command : Text → Text → Text → Request
unfolding request_of codes encode_uri_component
run_ups_command id name command =
    request_of (ups_path id name (codes "/command"))
      (with_body post (record { name = codes "cmd"; value = text command } ∷ []))

-- `metadata` is the object of the form's fields.
unfoldable pub update_ups_metadata : Text → Text → List Field → Request
unfolding request_of codes encode_uri_component
update_ups_metadata id name metadata =
    request_of (ups_path id name (codes "/metadata")) (with_body patch metadata)

unfoldable pub adopt_node : Text → Request
unfolding request_of codes encode_uri_component
adopt_node id = request_of (node_path id (codes "/adopt")) (with_method post)

unfoldable pub forget_node : Text → Request
unfolding request_of codes encode_uri_component
forget_node id = request_of (node_path id []) (with_method delete)

unfoldable pub update_node : Text → List Field → Request
unfolding request_of codes encode_uri_component
update_node id payload = request_of (node_path id []) (with_body patch payload)

unfoldable pub fetch_alert_rules : Request
unfolding request_of codes
fetch_alert_rules = request_of (codes "/api/alerts/rules") no_init

unfoldable pub fetch_alert_events : ℕ → Request
unfolding request_of codes decimal
fetch_alert_events limit = request_of (codes "/api/alerts/events?limit=" ++ decimal limit) no_init

unfoldable pub create_alert_rule : List Field → Request
unfolding request_of codes
create_alert_rule payload = request_of (codes "/api/alerts/rules") (with_body post payload)

abbrev rule_path : ℕ → Text → Text
rule_path id rest = codes "/api/alerts/rules/" ++ (decimal id ++ rest)

unfoldable pub delete_alert_rule : ℕ → Request
unfolding request_of codes decimal
delete_alert_rule id = request_of (rule_path id []) (with_method delete)

unfoldable pub test_alert_rule : ℕ → Request
unfolding request_of codes decimal
test_alert_rule id = request_of (rule_path id (codes "/test")) (with_method post)

unfoldable pub fetch_controller_settings : Request
unfolding request_of codes
fetch_controller_settings = request_of (codes "/api/settings/controller") no_init

unfoldable pub update_controller_settings : List Field → Request
unfolding request_of codes
update_controller_settings payload =
    request_of (codes "/api/settings/controller") (with_body patch payload)
