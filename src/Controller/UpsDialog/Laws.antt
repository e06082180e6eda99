-- ===== src/Controller/UpsDialog/Laws.antt =====
-- The guard against late replies, and what a click on a command sends.
use strom.Prelude.{
  String, Text, text_eq, text_eq_iff, ◌≡◌, refl, sym, ◌∙◌, subst, Bool, not, ◌&&◌, ◌||◌, Option,
  none, some, [], ◌∷◌, ◌++◌, arith, Bool-cases, inl, inr, if◌then◌else◌,
}
use strom.Controller.Format.{Thrown}
use strom.Controller.UpsDialog.{
  UpsDetail, run_ups_command, ok, failed, Loaded, UpsDialog, key_of, load_names, load_begin,
  load_end, set_names, command_begin,
}

-- `From key d` says that `d` is a detail that the controller gives for the node and UPS of `key`.
module _ {R S H : Type 0} (From : Text → UpsDetail R → Type 0) (point : S → H)
    (is_finite : H → Bool) where
  abbrev pub Belongs : Option (UpsDetail R) → Text → Type 0
  Belongs none key = Unit {0}
  Belongs (some d) key = From key d

  pub record IsGuarded (d : UpsDialog R H) : Type 0 where
    pub guarded : d.active_key ≡ key_of d.node_id d.ups_name
    pub shown : Belongs d.detail (key_of d.node_id d.ups_name)

  -- The dialog is opened, switched and closed, it loads, and replies come in late and in any order.
  pub data Step (d : UpsDialog R H) : UpsDialog R H → Type 0 where
    switch : (node_id ups_name : Option String) → Step d (set_names node_id ups_name d)
    load : Step d (load_begin d)
    loaded :
        (silent : Bool) (requested : Text) (l : Loaded R S)
        → From requested l.detail
        → Step d (load_end point is_finite silent requested (ok l) d)
    not_loaded :
        (silent : Bool) (requested : Text) (thrown : Thrown)
        → Step d (load_end {S = S} point is_finite silent requested (failed thrown) d)

  pub data Session (d₀ : UpsDialog R H) : UpsDialog R H → Type 0 where
    start : Session d₀ d₀
    next : {d e : UpsDialog R H} → Session d₀ d → Step d e → Session d₀ e

  load_names-IsGuarded :
      (node_id ups_name : Option String) (d : UpsDialog R H)
      → IsGuarded d
      → IsGuarded (load_names node_id ups_name d)
  load_names-IsGuarded none ups d v = v
  load_names-IsGuarded (some node) none d v = v
  load_names-IsGuarded (some node) (some ups) d v = record { guarded = v.guarded; shown = v.shown }

  Step-IsGuarded : {d e : UpsDialog R H} → Step d e → IsGuarded d → IsGuarded e
  unfolding set_names load_begin load_end
  Step-IsGuarded (switch none ups) v = record { guarded = refl; shown = tt }
  Step-IsGuarded (switch (some node) none) v = record { guarded = refl; shown = tt }
  Step-IsGuarded (switch (some node) (some ups)) v = record { guarded = refl; shown = tt }
  Step-IsGuarded {d} load v = load_names-IsGuarded d.node_id d.ups_name d v
  Step-IsGuarded {d} (loaded silent requested l h) v =
      elim (Bool-cases (text_eq d.active_key requested)) [
        | inl e ↦
            let same : requested ≡ key_of d.node_id d.ups_name =
              sym ((text_eq_iff d.active_key requested).0 e) ∙ v.guarded in
            rw (e, load_end)
              (record { guarded = v.guarded; shown = subst (λ key. From key l.detail) same h })
        | inr e ↦ rw (e, load_end) v
      ]
  Step-IsGuarded {d} (not_loaded silent requested thrown) v =
      elim (Bool-cases (not (text_eq d.active_key requested) || silent)) [
        | inl e ↦ rw (e, load_end) v
        | inr e ↦ rw (e, load_end) (record { guarded = v.guarded; shown = v.shown })
      ]

  -- However late and in whatever order the replies to its loads come in, while it is opened,
  -- switched and closed, the dialog shows no detail but one that the controller gave for the key of
  -- the open node and UPS, and goes on guarding its loads with that key, if it did so before.
  pub Session-IsGuarded : {d₀ d : UpsDialog R H} → Session d₀ d → IsGuarded d₀ → IsGuarded d
  Session-IsGuarded start v = v
  Session-IsGuarded (next s st) v = Step-IsGuarded st (Session-IsGuarded s v)

module _ {R H : Type 0} where
  -- With a node and a UPS open, a click on a command sends exactly that command to that UPS, unless
  -- the command is destructive and the user does not confirm it: then it sends nothing.
  pub command_begin-sent :
      (confirmed : Bool) (command : String) (destructive : Bool) (node ups : String)
      (d : UpsDialog R H)
      → d.node_id ≡ some node
      → d.ups_name ≡ some ups
      → (command_begin confirmed command destructive d).sent ≡ (
          if destructive && not confirmed
          then d.sent
          else d.sent ++ run_ups_command node ups command ∷ [])
  unfolding command_begin
  command_begin-sent confirmed command destructive node ups d n u = ground arith
