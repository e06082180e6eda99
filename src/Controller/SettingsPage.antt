-- ===== src/Controller/SettingsPage.antt =====
-- controller/web/src/pages/SettingsPage.tsx: the listener of the controller. Each `async` function is
-- cut at its `await`; `sent` has the requests in their order.
pub mod Laws
mod Tests
use strom.Prelude.{
  ℕ, ◌+◌, Text, codes, Bool, true, false, not, Option, none, some, List, [], ◌∷◌, ◌++◌,
  if◌then◌else◌,
}
use strom.Controller.Format.{Thrown, error_object, humanize_error, or_text}
use strom.Controller.NodeDialog.{Reply, ok, failed}
use strom.Controller.Api.{
  Request, text, flag, fetch_controller_settings, update_controller_settings,
}

pub record ControllerSettings : Type 0 where
  pub aggregate_nut_enabled : Bool
  pub aggregate_nut_listen : Text
  pub aggregate_nut_active : Bool

pub record Toast : Type 0 where
  pub text : Text
  pub is_error : Bool

pub record SettingsPage : Type 0 where
  pub settings : Option ControllerSettings
  pub listen : Text
  pub saving : Bool
  pub error : Option Text
  pub sent : List Request
  pub toasts : List Toast

abbrev pub default_listen : Text
default_listen = codes ":3493"

abbrev message_of : Thrown → Text
message_of (error_object message) = message
message_of _ = codes "Unknown error"

unfoldable pub load_begin : SettingsPage → SettingsPage
unfolding fetch_controller_settings
load_begin s = record s { sent = s.sent ++ fetch_controller_settings ∷ [] }

unfoldable pub load_end : Reply ControllerSettings → SettingsPage → SettingsPage
unfolding codes
load_end (ok payload) s = record s {
  settings = some payload;
  listen = or_text payload.aggregate_nut_listen default_listen;
  error = none;
}
load_end (failed thrown) s = record s { error = some (message_of thrown) }

abbrev toggle_with : Option ControllerSettings → SettingsPage → SettingsPage
toggle_with none s = s
toggle_with (some settings) s = record s {
  saving = true;
  sent =
      s.sent
      ++ update_controller_settings (
          record {
            name = codes "aggregate_nut_enabled";
            value = flag (not settings.aggregate_nut_enabled);
          }
          ∷ record { name = codes "aggregate_nut_listen"; value = text s.listen }
          ∷ [])
        ∷ [];
}

-- `handleToggle` and `handleListenSave` up to their `await`.
unfoldable pub toggle_begin : SettingsPage → SettingsPage
unfolding update_controller_settings codes
toggle_begin s = toggle_with s.settings s

abbrev save_with : Option ControllerSettings → SettingsPage → SettingsPage
save_with none s = s
save_with (some settings) s = record s {
  saving = true;
  sent =
      s.sent
      ++ update_controller_settings
          (record { name = codes "aggregate_nut_listen"; value = text s.listen } ∷ [])
        ∷ [];
}

unfoldable pub save_begin : SettingsPage → SettingsPage
unfolding update_controller_settings codes
save_begin s = save_with s.settings s

abbrev toast : Text → Bool → List Toast → List Toast
toast message is_error toasts = toasts ++ record { text = message; is_error = is_error } ∷ []

abbrev updated : ControllerSettings → Text → SettingsPage → SettingsPage
updated settings message s = record s {
  settings = some settings;
  listen = settings.aggregate_nut_listen;
  toasts = toast message false s.toasts;
  error = none;
  saving = false;
}

abbrev refused : Thrown → SettingsPage → SettingsPage
refused thrown s =
    let message = humanize_error thrown (codes "Settings update failed.") in
    record s { error = some message; toasts = toast message true s.toasts; saving = false }

unfoldable pub toggle_end : Reply ControllerSettings → SettingsPage → SettingsPage
unfolding humanize_error codes
toggle_end (ok settings) s =
    updated settings
      (if settings.aggregate_nut_enabled
        then codes "Aggregate NUT listener enabled."
        else codes "Aggregate NUT listener disabled.")
      s
toggle_end (failed thrown) s = refused thrown s

unfoldable pub save_end : Reply ControllerSettings → SettingsPage → SettingsPage
unfolding humanize_error codes
save_end (ok settings) s =
    updated settings
      (codes "Aggregate listener address set to " ++ (settings.aggregate_nut_listen ++ codes ".")) s
save_end (failed thrown) s = refused thrown s

unfoldable pub change_listen : Text → SettingsPage → SettingsPage
change_listen listen s = record s { listen = listen }
