-- ===== src/Controller/UpsDialog/Tests.antt =====
-- A dialog that is switched while replies are on their way. A detail's body is the key it is for.
use strom.Prelude.{
  ℕ, Text, codes, ◌≡◌, refl, Bool, true, false, Option, none, some, [], ◌∷◌, ◌++◌, ltb,
}
use strom.Dashboard.Metadata.{UpsMetadata}
use strom.Controller.UpsDialog.{
  UpsDetail, run_ups_command, update_ups_metadata, ok, Loaded, UpsDialog, key_of, load_end,
  set_names, command_begin,
}
use strom.Controller.UpsDialog.Editor.{
  click_edit, type_display_name, type_tags, close_editor, click_save,
}
use strom.Controller.UpsDialog.Content.{DetailInfo, Content, loading, page, title, content}
use strom.Controller.Format.{StatusSeverity, error, is_error_status}
use strom.Controller.UpsDialog.Laws.{
  IsGuarded, Session, start, next, switch, loaded, Session-IsGuarded, command_begin-sent,
}
use strom.Controller.UpsDialog.Stale.{
  commanded_late, commanded_late-stale, saved_late, saved_late-mixed,
}

abbrev no_metadata : UpsMetadata
no_metadata = record { display_name = []; tags = [] }

abbrev detail_for : Text → UpsDetail Text
detail_for key = record { metadata = no_metadata; body = key }

abbrev From : Text → UpsDetail Text → Type 0
From key d = d.body ≡ key

abbrev loaded_for : Text → Loaded Text ℕ
loaded_for key = record {
  detail = detail_for key;
  charge = 90 ∷ 80 ∷ [];
  load_samples = 20 ∷ [];
  runtime = [];
}

abbrev key_a : Text
key_a = key_of (some "node") (some "a")

abbrev key_b : Text
key_b = key_of (some "node") (some "b")

abbrev point : ℕ → ℕ
point sample = sample

abbrev is_finite : ℕ → Bool
is_finite value = ltb value 100

abbrev closed : UpsDialog Text ℕ
closed = record {
  node_id = none;
  ups_name = none;
  active_key = key_of none none;
  detail = none;
  charge_history = [];
  load_history = [];
  runtime_history = [];
  error = none;
  metadata_editor_open = false;
  metadata_form = record { display_name = []; tags = [] };
  saving_metadata = false;
  sent = [];
  toasts = [];
}

closed-IsGuarded : IsGuarded From point is_finite closed
closed-IsGuarded = record { guarded = refl; shown = tt }

-- UPS `a` is opened, then `b`; the reply for `a` comes in after the one for `b`.
abbrev switched : UpsDialog Text ℕ
switched = load_end point is_finite false key_a (ok (loaded_for key_a)) (
    load_end point is_finite false key_b (ok (loaded_for key_b))
      (set_names (some "node") (some "b") (set_names (some "node") (some "a") closed)))

abbrev session : Session From point is_finite closed switched
session =
    next
      (next (next (next start (switch (some "node") (some "a"))) (switch (some "node") (some "b")))
        (loaded false key_b (loaded_for key_b) refl))
      (loaded false key_a (loaded_for key_a) refl)

Session-IsGuarded_example : IsGuarded From point is_finite switched
Session-IsGuarded_example = Session-IsGuarded From point is_finite session closed-IsGuarded

abbrev showing : UpsDialog Text ℕ
showing = record closed {
  node_id = some "node";
  ups_name = some "a";
  active_key = key_a;
  detail = some (detail_for key_a);
}

command_begin-sent_test :
    (command_begin true "shutdown.return" true showing).sent
    ≡ run_ups_command "node" "a" "shutdown.return" ∷ []
command_begin-sent_test =
    command_begin-sent true "shutdown.return" true "node" "a" showing refl refl

commanded_late-stale_example :
    ((commanded_late "node" "a" "beeper.toggle" "b"
        (codes "done")
        (detail_for key_a)
        showing).ups_name
      ≡ some "b")
    × ((commanded_late "node" "a" "beeper.toggle" "b"
          (codes "done")
          (detail_for key_a)
          showing).active_key
        ≡ key_b)
    × ((commanded_late "node" "a" "beeper.toggle" "b"
          (codes "done")
          (detail_for key_a)
          showing).detail
        ≡ some (detail_for key_a))
commanded_late-stale_example =
    commanded_late-stale "node" "a" "beeper.toggle" "b" (codes "done") (detail_for key_a) showing

abbrev metadata_a : UpsMetadata
metadata_a = record { display_name = codes "Rack"; tags = codes "lab" ∷ [] }

saved_late-mixed_test :
    ((saved_late point is_finite "node" "b" (loaded_for key_b) metadata_a showing).ups_name
      ≡ some "b")
    × ((saved_late point is_finite "node" "b" (loaded_for key_b) metadata_a showing).detail
        ≡ some (record { metadata = metadata_a; body = key_b }))
saved_late-mixed_test =
    saved_late-mixed point is_finite "node" "b" (loaded_for key_b) metadata_a showing

-- The editor, opened for a live detail.
abbrev editing : UpsDialog Text ℕ
editing = record showing { detail = some (record { metadata = metadata_a; body = key_a }) }

abbrev always_live : Text → Bool
always_live key = true

closed_during_save :
    (close_editor (click_save (click_edit always_live editing))).metadata_editor_open ≡ true
unfolding close_editor click_save click_edit codes
closed_during_save = refl

saved_twice : click_save (click_save editing) ≡ click_save editing
unfolding click_save codes
saved_twice = refl

typed_saved :
    (click_save (type_tags (codes "a, b") (type_display_name (codes " R ") editing))).sent
    ≡ editing.sent
      ++ update_ups_metadata "node" "a"
          (record { display_name = codes "R"; tags = codes "a" ∷ codes "b" ∷ [] })
        ∷ []
unfolding click_save type_tags type_display_name codes
typed_saved = refl

-- What the dialog shows of a UPS; numbers are their texts.
abbrev info : DetailInfo Text
info = record {
  name = codes "a";
  status = [];
  metadata = metadata_a;
  metrics = some (record {
    status = codes "OB";
    battery_charge_percent = some (codes "80");
    load_percent = none;
    runtime_seconds = none;
  });
  battery_runtime_trend = none;
  commands = record { name = codes "x"; description = []; destructive = true } ∷ [];
  variables = [];
}

title_shown : title (some info) (codes "a") ≡ codes "Rack"
unfolding title codes
title_shown = refl

title_waiting : title {Number = Text} none (codes "a") ≡ codes "a"
unfolding title codes
title_waiting = refl

abbrev shown : Option Text → Option (DetailInfo Text) → Content
shown = content (λ t. t) (λ t. t) (λ t. false) (λ t. t) (λ a b. true)

abbrev chip_shown : Content → Option StatusSeverity
chip_shown (page p) = some p.chip
chip_shown _ = none

status_of_metrics : chip_shown (shown none (some info)) ≡ some error
unfolding content is_error_status codes
status_of_metrics = refl

waiting : shown none none ≡ loading
unfolding content
waiting = refl
