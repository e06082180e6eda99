-- ===== src/Dashboard/Store/Race.antt =====
-- Replies to two loads that come in out of order.
use strom.Prelude.{String, ◌≡◌, refl, false, some, [], ◌∷◌, ◌++◌, arith}
use strom.Dashboard.Store.{
  Command, Detail, shown, view, post_command, ok, Store, load_begin, load_end,
}
use strom.Dashboard.Commands.{run_command}

module _ {R : Type 0} where
  -- The user selects `a` and then `b`, and the reply for `a` comes in last.
  abbrev pub late_reply : (a b : String) (first second : Detail R) → Store R → Store R
  late_reply a b first second s =
      load_end false a (ok first) (load_end false b (ok second) (load_begin b (load_begin a s)))

  -- Whatever is selected and loaded before: if the replies to two loads come in in the other order,
  -- the detail that is kept and shown is the reply to the first load, while the second UPS is
  -- selected, and a command that is run from the shown detail is sent to the second UPS.
  pub late_reply-mismatch :
      (a b : String) (first second : Detail R) (s : Store R) (command : Command)
      → ((late_reply a b first second s).selected ≡ some b)
        × ((late_reply a b first second s).detail ≡ some first)
        × ((late_reply a b first second s).panel ≡ shown (view first))
        × ((run_command command (late_reply a b first second s)).sent
            ≡ (late_reply a b first second s).sent ++ post_command b command.name ∷ [])
  unfolding load_end load_begin run_command view
  late_reply-mismatch a b first second s command = (refl, refl, ground arith, refl)
