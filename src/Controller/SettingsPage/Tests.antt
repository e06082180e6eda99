-- ===== src/Controller/SettingsPage/Tests.antt =====
-- A change of the listener that the controller refuses.
use strom.Prelude.{◌≡◌, refl, codes, false, none, []}
use strom.Controller.Format.{error_object}
use strom.Controller.NodeDialog.{ok, failed}
use strom.Controller.SettingsPage.{
  ControllerSettings, SettingsPage, default_listen, load_begin, load_end, toggle_begin, toggle_end,
  change_listen,
}
use strom.Controller.SettingsPage.Laws.{
  idle, is_pending, start, loaded, typed, toggled, toggle_answered, Session-saving,
}

abbrev off : ControllerSettings
off = record {
  aggregate_nut_enabled = false;
  aggregate_nut_listen = default_listen;
  aggregate_nut_active = false;
}

abbrev opened : SettingsPage
opened = record {
  settings = none;
  listen = default_listen;
  saving = false;
  error = none;
  sent = [];
  toasts = [];
}

abbrev edited : SettingsPage
edited = change_listen (codes ":80") (load_end (ok off) (load_begin opened))

abbrev answered : SettingsPage
answered = toggle_end (failed (error_object (codes "no"))) (toggle_begin edited)

Session-saving_example : answered.saving ≡ is_pending idle
unfolding load_begin load_end change_listen
Session-saving_example = Session-saving opened answered false idle refl (
    toggle_answered (failed (error_object (codes "no")))
      (toggled {settings = off} refl refl (typed (codes ":80") refl (loaded (ok off) start))))
