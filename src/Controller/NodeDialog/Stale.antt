-- ===== src/Controller/NodeDialog/Stale.antt =====
-- A late reply to an update, which no guard drops.
use strom.Prelude.{String, Text, ◌≡◌, ◌≢◌, refl, true, some, arith}
use strom.Controller.NodeDialog.{Node, ok, NodeDialog, set_node_id, toggle_begin, update_end}

module _ {H : Type 0} where
  -- The user confirms a toggle, opens another node, and then the reply to the toggle comes in.
  abbrev pub toggled_late : Text → Text → Node → String → NodeDialog H → NodeDialog H
  toggled_late success fallback updated other d =
      update_end success fallback (ok updated) (set_node_id (some other) (toggle_begin true d))

  -- If the dialog is switched to another node before the reply to a confirmed toggle is in, it shows
  -- the old node while the other one is open.
  pub toggled_late-stale :
      (success fallback : Text) (updated : Node) (other : String) (d : NodeDialog H)
      → updated.id ≢ other
      → ((toggled_late success fallback updated other d).node_id ≡ some other)
        × ((toggled_late success fallback updated other d).active ≡ some other)
        × ((toggled_late success fallback updated other d).node ≡ some updated)
        × ((n : Node)
            → (toggled_late success fallback updated other d).node ≡ some n
            → n.id ≢ other)
  unfolding update_end set_node_id toggle_begin
  toggled_late-stale success fallback updated other d distinct =
      (refl, refl, refl, λ n e q. distinct (ground arith))
