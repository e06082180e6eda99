-- ===== src/Controller/NodeDialog/Laws.antt =====
-- The guard against late replies, and what the handlers send.
use strom.Prelude.{
  String, eq_iff, ◌≡◌, refl, ap, sym, ◌∙◌, Bool, true, false, not, Option, none, some, [], ◌∷◌,
  ◌++◌, arith, Bool-cases, inl, inr, if◌then◌else◌, ◌||◌, ◌&&◌,
}
use strom.Controller.Format.{Thrown}
use strom.Controller.NodeDialog.{
  Node, is_active, set_local_ui_policy, release_local_ui_policy, forget_node, ok, failed,
  NodeDialog, load_begin, load_end, set_node_id, toggle_begin, release_begin, forget_begin,
}

abbrev pub Belongs : Option Node → Option String → Type 0
Belongs none id = Unit {0}
Belongs (some node) id = id ≡ some node.id

eq_of_is_active :
    (active : Option String) (id : String) → is_active active id ≡ true → active ≡ some id
eq_of_is_active none id h = cc
eq_of_is_active (some a) id h = ap some ((eq_iff a id).0 h)

module _ {H : Type 0} where
  -- The dialog shows no node but the open one.
  pub record IsCurrent (d : NodeDialog H) : Type 0 where
    pub guarded : d.active ≡ d.node_id
    pub shown : Belongs d.node d.node_id

  -- The dialog is opened, switched and closed, it loads, and replies come in late and in any order.
  -- The controller answers a request for a node with that node.
  pub data Step (d : NodeDialog H) : NodeDialog H → Type 0 where
    switch : (node_id : Option String) → Step d (set_node_id node_id d)
    load : Step d (load_begin d)
    loaded :
        (silent : Bool) (requested : String) (node : Node) (health : H)
        → node.id ≡ requested
        → Step d (load_end silent requested (ok (node, health)) d)
    not_loaded :
        (silent : Bool) (requested : String) (thrown : Thrown)
        → Step d (load_end silent requested (failed thrown) d)

  pub data Session (d₀ : NodeDialog H) : NodeDialog H → Type 0 where
    start : Session d₀ d₀
    next : {d e : NodeDialog H} → Session d₀ d → Step d e → Session d₀ e

  Step-IsCurrent : {d e : NodeDialog H} → Step d e → IsCurrent d → IsCurrent e
  unfolding set_node_id load_begin load_end
  Step-IsCurrent (switch none) v = ground arith
  Step-IsCurrent (switch (some id)) v = ground arith
  Step-IsCurrent load v = ground arith
  Step-IsCurrent {d} (loaded silent requested node health h) v =
      elim (Bool-cases (is_active d.active requested)) [
        | inl e ↦
            rw (e, load_end)
              (record {
                guarded = v.guarded;
                shown = sym v.guarded ∙ eq_of_is_active d.active requested e ∙ ap some (sym h);
              })
        | inr e ↦ rw (e, load_end) v
      ]
  Step-IsCurrent {d} (not_loaded silent requested thrown) v =
      elim (Bool-cases (not (is_active d.active requested) || silent)) [
        | inl e ↦ rw (e, load_end) v
        | inr e ↦ rw (e, load_end) (record { guarded = v.guarded; shown = v.shown })
      ]

  -- However late and in whatever order the replies to its loads come in, while it is opened,
  -- switched and closed, the dialog shows no node but the open one, if it does so at first and its
  -- guard is the open node.
  pub Session-IsCurrent : {d₀ d : NodeDialog H} → Session d₀ d → IsCurrent d₀ → IsCurrent d
  Session-IsCurrent start v = v
  Session-IsCurrent (next s st) v = Step-IsCurrent st (Session-IsCurrent s v)

  -- Without confirmation no handler sends anything. With it, a toggle asks for the opposite of the
  -- policy that is shown, a release is asked for only if the controller manages the policy, and the
  -- shown node is the one that is changed or forgotten.
  pub begin-sent :
      (confirmed : Bool) (node : Node) (d : NodeDialog H)
      → d.node ≡ some node
      → ((toggle_begin confirmed d).sent ≡ (
          if confirmed
          then d.sent ++ set_local_ui_policy node.id (not node.local_ui_policy_enabled) ∷ []
          else d.sent))
        × ((release_begin confirmed d).sent ≡ (
            if confirmed && node.local_ui_policy_managed
            then d.sent ++ release_local_ui_policy node.id ∷ []
            else d.sent))
        × ((forget_begin confirmed d).sent
            ≡ (if confirmed then d.sent ++ forget_node node.id ∷ [] else d.sent))
  unfolding toggle_begin release_begin forget_begin
  begin-sent true node d h = rw h (refl, ground arith, refl)
  begin-sent false node d h = rw h (refl, ground arith, refl)
