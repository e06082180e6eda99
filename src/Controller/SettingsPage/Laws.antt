-- ===== src/Controller/SettingsPage/Laws.antt =====
-- The session of the page: while a change is being saved its controls are disabled.
use strom.Prelude.{◌≡◌, refl, Text, Bool, true, false, some}
use strom.Controller.NodeDialog.{Reply, ok, failed}
use strom.Controller.SettingsPage.{
  ControllerSettings, SettingsPage, load_begin, load_end, toggle_begin, toggle_end, save_begin,
  save_end, change_listen,
}

-- An update that has no reply yet.
pub data Pending : Type 0 where
  idle toggling addressing : Pending

abbrev pub is_pending : Pending → Bool
is_pending idle = false
is_pending _ = true

-- The controls are there once the settings are, and disabled while `saving`. The page loads once,
-- and its reply can come at any time before it has come.
pub data Session (s₀ : SettingsPage) : Bool → Pending → SettingsPage → Type 0 where
  start : Session s₀ true idle (load_begin s₀)
  loaded :
      {p : Pending} {s : SettingsPage} (reply : Reply ControllerSettings)
      → Session s₀ true p s
      → Session s₀ false p (load_end reply s)
  typed :
      {b : Bool} {p : Pending} {s : SettingsPage} (text : Text)
      → s.saving ≡ false
      → Session s₀ b p s
      → Session s₀ b p (change_listen text s)
  toggled :
      {b : Bool} {p : Pending} {s : SettingsPage} {settings : ControllerSettings}
      → s.settings ≡ some settings
      → s.saving ≡ false
      → Session s₀ b p s
      → Session s₀ b toggling (toggle_begin s)
  submitted :
      {b : Bool} {p : Pending} {s : SettingsPage} {settings : ControllerSettings}
      → s.settings ≡ some settings
      → s.saving ≡ false
      → Session s₀ b p s
      → Session s₀ b addressing (save_begin s)
  toggle_answered :
      {b : Bool} {s : SettingsPage} (reply : Reply ControllerSettings)
      → Session s₀ b toggling s
      → Session s₀ b idle (toggle_end reply s)
  save_answered :
      {b : Bool} {s : SettingsPage} (reply : Reply ControllerSettings)
      → Session s₀ b addressing s
      → Session s₀ b idle (save_end reply s)

toggle-saving :
    (s : SettingsPage) (settings : ControllerSettings)
    → s.settings ≡ some settings
    → (toggle_begin s).saving ≡ true
unfolding toggle_begin
toggle-saving s settings e = rw e refl

save-saving :
    (s : SettingsPage) (settings : ControllerSettings)
    → s.settings ≡ some settings
    → (save_begin s).saving ≡ true
unfolding save_begin
save-saving s settings e = rw e refl

-- If nothing is being saved at first, then at every moment of a session the controls are disabled
-- exactly while an update waits for its reply: a second update is never sent before the first one's
-- reply, and after every reply, a failure too, the controls are enabled again.
pub Session-saving :
    (s₀ s : SettingsPage) (loading : Bool) (p : Pending)
    → s₀.saving ≡ false
    → Session s₀ loading p s
    → s.saving ≡ is_pending p
unfolding load_begin load_end toggle_end save_end change_listen
Session-saving s₀ _ _ _ e start = e
Session-saving s₀ _ _ _ e (loaded {p} {s} (ok payload) h) = Session-saving s₀ s true p e h
Session-saving s₀ _ _ _ e (loaded {p} {s} (failed thrown) h) = Session-saving s₀ s true p e h
Session-saving s₀ _ _ _ e (typed {b} {p} {s} text q h) = Session-saving s₀ s b p e h
Session-saving s₀ _ _ _ e (toggled {s = s} {settings} known q h) = toggle-saving s settings known
Session-saving s₀ _ _ _ e (submitted {s = s} {settings} known q h) = save-saving s settings known
Session-saving s₀ _ _ _ e (toggle_answered (ok settings) h) = refl
Session-saving s₀ _ _ _ e (toggle_answered (failed thrown) h) = refl
Session-saving s₀ _ _ _ e (save_answered (ok settings) h) = refl
Session-saving s₀ _ _ _ e (save_answered (failed thrown) h) = refl
