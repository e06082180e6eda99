-- ===== src/Controller/NodeDialog.antt =====
-- The handlers of controller/web/src/components/NodeDetailDialog.tsx. An `async` function is cut at
-- its `await`; the answer of a confirmation is an argument. Titles of confirmations are left out.
pub mod Laws
pub mod Stale
pub mod Content
mod Tests
use strom.Prelude.{
  ℕ, ◌+◌, String, str_eq, Text, codes, Bool, true, false, not, ◌||◌, Option, none, some, List, [],
  ◌∷◌, ◌++◌, if◌then◌else◌,
}
use strom.Controller.Format.{Thrown, humanize_error}

-- The fields of a node's record that the handlers read, and its labels. `reference` is what
-- `formatNodeReference` gives for it.
pub record Node : Type 0 where
  pub id : String
  pub reference : Text
  pub local_ui_policy_managed : Bool
  pub local_ui_policy_enabled : Bool

pub record DetailValues : Type 0 where
  pub display_name : Text
  pub location_label : Text
  pub site_label : Text

pub data Request : Type 0 where
  fetch_node fetch_node_health forget_node : String → Request
  set_local_ui_policy : (id : String) (enabled : Bool) → Request
  release_local_ui_policy : String → Request
  edit_details : String → DetailValues → Request

pub data Reply (A : Type 0) : Type 0 where
  ok : A → Reply A
  failed : Thrown → Reply A

pub record Toast : Type 0 where
  pub text : Text
  pub is_error : Bool

-- `H` is the type of a node's health. `active` is `activeNodeIdRef.current`; `changes` and `closes`
-- count the calls of `onChanged` and `onClose`.
pub record NodeDialog (H : Type 0) : Type 0 where
  pub node_id : Option String
  pub active : Option String
  pub node : Option Node
  pub health : Option H
  pub error : Option Text
  pub tab : ℕ
  pub sent : List Request
  pub toasts : List Toast
  pub changes : ℕ
  pub closes : ℕ

abbrev is_active : Option String → String → Bool
is_active none requested = false
is_active (some id) requested = str_eq id requested

module _ {H : Type 0} where
  abbrev send : Request → NodeDialog H → NodeDialog H
  send request d = record d { sent = d.sent ++ request ∷ [] }

  abbrev toast : Text → Bool → NodeDialog H → NodeDialog H
  toast text is_error d = record d {
    toasts = d.toasts ++ record { text = text; is_error = is_error } ∷ [];
  }

  abbrev load_id : Option String → NodeDialog H → NodeDialog H
  load_id none d = d
  load_id (some id) d = send (fetch_node_health id) (send (fetch_node id) d)

  -- `load` up to its `await`.
  unfoldable pub load_begin : NodeDialog H → NodeDialog H
  load_begin d = load_id d.node_id d

  -- `load` with both replies, or with the first failure.
  unfoldable pub load_end : Bool → String → Reply (Node × H) → NodeDialog H → NodeDialog H
  load_end silent requested (ok (node, health)) d =
      if is_active d.active requested
      then record d { node = some node; health = some health; error = none }
      else d
  load_end silent requested (failed thrown) d =
      if not (is_active d.active requested) || silent
      then d
      else record d { error = some (humanize_error thrown (codes "Unknown error")) }

  -- A new `nodeId`, and the effect on it.
  unfoldable pub set_node_id : Option String → NodeDialog H → NodeDialog H
  unfolding load_begin
  set_node_id node_id d = load_begin (record d {
    node_id = node_id;
    active = node_id;
    tab = 0;
    node = none;
    health = none;
    error = none;
  })

  abbrev toggle_node : Bool → Option Node → NodeDialog H → NodeDialog H
  toggle_node confirmed none d = d
  toggle_node confirmed (some node) d =
      if confirmed
      then send (set_local_ui_policy node.id (not node.local_ui_policy_enabled)) d
      else d

  -- `handleToggleLocalUIPolicy` up to the `await` of its request.
  unfoldable pub toggle_begin : Bool → NodeDialog H → NodeDialog H
  toggle_begin confirmed d = toggle_node confirmed d.node d

  abbrev release_node : Bool → Option Node → NodeDialog H → NodeDialog H
  release_node confirmed none d = d
  release_node confirmed (some node) d =
      if node.local_ui_policy_managed
      then if confirmed then send (release_local_ui_policy node.id) d else d
      else d

  unfoldable pub release_begin : Bool → NodeDialog H → NodeDialog H
  release_begin confirmed d = release_node confirmed d.node d

  abbrev edit_node : DetailValues → Option Node → NodeDialog H → NodeDialog H
  edit_node values none d = d
  edit_node values (some node) d = send (edit_details node.id values) d

  unfoldable pub edit_begin : DetailValues → NodeDialog H → NodeDialog H
  edit_begin values d = edit_node values d.node d

  -- The rest of the three, with the reply: the text of success and the fallback of failure differ.
  unfoldable pub update_end : Text → Text → Reply Node → NodeDialog H → NodeDialog H
  update_end success fallback (ok updated) d =
      let d' = toast success false (record d { node = some updated }) in
      record d' { changes = d'.changes + 1 }
  update_end success fallback (failed thrown) d = toast (humanize_error thrown fallback) true d

  abbrev forget_shown : Bool → Option Node → NodeDialog H → NodeDialog H
  forget_shown confirmed none d = d
  forget_shown confirmed (some node) d = if confirmed then send (forget_node node.id) d else d

  unfoldable pub forget_begin : Bool → NodeDialog H → NodeDialog H
  forget_begin confirmed d = forget_shown confirmed d.node d

  unfoldable pub forget_end : Text → Reply (Unit {0}) → NodeDialog H → NodeDialog H
  forget_end reference (ok done) d =
      let d' = toast (codes "Forgot " ++ reference ++ codes ".") false d in
      record d' { changes = d'.changes + 1; closes = d'.closes + 1 }
  forget_end reference (failed thrown) d =
      toast (humanize_error thrown (codes "Forget failed.")) true d
