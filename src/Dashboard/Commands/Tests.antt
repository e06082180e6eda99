-- ===== src/Dashboard/Commands/Tests.antt =====
-- A destructive command, and a stream that drops its UPS.
use strom.Prelude.{ℕ, codes, ◌≡◌, refl, true, false, none, some, List, [], ◌∷◌, ◌++◌}
use strom.Dashboard.Store.{Ups, Command, Detail, message, post_command, Store}
use strom.Dashboard.Commands.{Console, submit_confirm}
use strom.Dashboard.Commands.Laws.{
  Action, click, submit, cancel, act_all, posts, requested, act_all-sent, dropped,
  confirm-other_ups,
}

abbrev shutdown : Command
shutdown = record { name = "shutdown.return"; destructive = true }

abbrev beep : Command
beep = record { name = "beeper.toggle"; destructive = false }

abbrev rack_detail : Detail ℕ
rack_detail = record {
  name = "rack";
  driver = "snmp-ups";
  display_name = "";
  status = "OB";
  reading = 3;
  writable = [];
  commands = beep ∷ shutdown ∷ [];
}

abbrev office : Ups ℕ
office = record {
  name = "office";
  driver = "usbhid-ups";
  display_name = "";
  status = "OL";
  reading = 7;
}

abbrev page : Store ℕ
page = record {
  upses = [];
  selected = some "rack";
  detail = some rack_detail;
  dirty = [];
  grid = [];
  panel = message none;
  sent = [];
  toast = none;
}

abbrev console : Console ℕ
console = record { store = page; pending = none; modal_open = false; confirm_text = [] }

-- A harmless command, a cancelled one with a confirmation after it, and a confirmed one.
abbrev clicks : List (Action ℕ)
clicks =
    click rack_detail "beeper.toggle"
    ∷ click rack_detail "shutdown.return"
    ∷ cancel
    ∷ submit
    ∷ click rack_detail "shutdown.return"
    ∷ submit
    ∷ submit
    ∷ []

requested-clicks : requested none clicks ≡ beep ∷ shutdown ∷ []
requested-clicks = refl

act_all-sent_example :
    (act_all clicks console).store.sent
    ≡ console.store.sent ++ posts console.store.selected (requested console.pending clicks)
act_all-sent_example = act_all-sent clicks console

confirm-other_ups_example :
    ((dropped shutdown office [] console).confirm_text
      ≡ codes "Run "
        ++ codes "shutdown.return"
        ++ codes " on "
        ++ codes "rack"
        ++ codes "? This action cannot be undone.")
    × ((dropped shutdown office [] console).modal_open ≡ true)
    × ((submit_confirm (dropped shutdown office [] console)).store.sent
        ≡ (dropped shutdown office [] console).store.sent
          ++ post_command "office" "shutdown.return" ∷ [])
confirm-other_ups_example = confirm-other_ups shutdown "rack" office [] console refl refl
