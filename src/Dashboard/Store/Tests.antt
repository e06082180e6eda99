-- ===== src/Dashboard/Store/Tests.antt =====
-- Two loads whose replies come in out of order.
use strom.Prelude.{ℕ, String, ◌≡◌, true, none, some, [], ◌∷◌, ◌++◌}
use strom.Dashboard.Store.{Command, Detail, message, shown, view, post_command, Store}
use strom.Dashboard.Store.Race.{late_reply, late_reply-mismatch}
use strom.Dashboard.Commands.{run_command}

abbrev detail_of : String → Detail ℕ
detail_of name = record {
  name = name;
  driver = "usbhid-ups";
  display_name = "";
  status = "OL";
  reading = 5;
  writable = [];
  commands = [];
}

abbrev blank : Store ℕ
blank = record {
  upses = [];
  selected = none;
  detail = none;
  dirty = [];
  grid = [];
  panel = message none;
  sent = [];
  toast = none;
}

abbrev shutdown : Command
shutdown = record { name = "shutdown.return"; destructive = true }

late_reply-mismatch_example :
    ((late_reply "a" "b" (detail_of "a") (detail_of "b") blank).selected ≡ some "b")
    × ((late_reply "a" "b" (detail_of "a") (detail_of "b") blank).detail ≡ some (detail_of "a"))
    × ((late_reply "a" "b" (detail_of "a") (detail_of "b") blank).panel
        ≡ shown (view (detail_of "a")))
    × ((run_command shutdown (late_reply "a" "b" (detail_of "a") (detail_of "b") blank)).sent
        ≡ (late_reply "a" "b" (detail_of "a") (detail_of "b") blank).sent
          ++ post_command "b" "shutdown.return" ∷ [])
late_reply-mismatch_example =
    late_reply-mismatch "a" "b" (detail_of "a") (detail_of "b") blank shutdown
