-- ===== src/Controller/UpsDialog/Editor.antt =====
-- The metadata editor in the page of controller/web/src/components/UPSDetailDialog.tsx: its inputs and
-- its buttons. (The browser stops the typing in each input at 120 characters.)
use strom.Prelude.{Text, Bool, false, Option, none, some, if◌then◌else◌}
use strom.Controller.UpsDialog.{UpsDetail, UpsDialog, open_metadata_editor, save_begin}

module _ {R H : Type 0} where
  abbrev click_detail : (R → Bool) → Option (UpsDetail R) → UpsDialog R H → UpsDialog R H
  click_detail is_live none d = d
  click_detail is_live (some detail) d = if is_live detail.body then open_metadata_editor d else d

  -- The button is there for a live detail only.
  unfoldable pub click_edit : (R → Bool) → UpsDialog R H → UpsDialog R H
  unfolding open_metadata_editor
  click_edit is_live d = click_detail is_live d.detail d

  unfoldable pub type_display_name : Text → UpsDialog R H → UpsDialog R H
  type_display_name value d = record d {
    metadata_form = record (d.metadata_form) { display_name = value };
  }

  unfoldable pub type_tags : Text → UpsDialog R H → UpsDialog R H
  type_tags value d = record d { metadata_form = record (d.metadata_form) { tags = value } }

  -- The handler `onClose` of the editor, and the button `Cancel`, which is disabled during a save.
  unfoldable pub close_editor : UpsDialog R H → UpsDialog R H
  close_editor d = if d.saving_metadata then d else record d { metadata_editor_open = false }

  -- The button `Save details`, which is disabled during a save.
  unfoldable pub click_save : UpsDialog R H → UpsDialog R H
  unfolding save_begin
  click_save d = if d.saving_metadata then d else save_begin d
