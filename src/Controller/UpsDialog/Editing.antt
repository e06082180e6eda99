-- ===== src/Controller/UpsDialog/Editing.antt =====
-- What the editor of controller/web/src/components/UPSDetailDialog.tsx sends.
use strom.Prelude.{String, ◌≡◌, refl, Bool, true, false, none, some, [], ◌∷◌, ◌++◌, arith, All}
use strom.Dashboard.Settings.{trim}
use strom.Dashboard.Metadata.Tags.{IsTag, parse_tags-join_tags}
use strom.Controller.UpsDialog.{
  UpsDetail, UpsDialog, update_ups_metadata, set_names, open_metadata_editor, save_begin,
}
use strom.Controller.UpsDialog.Editor.{click_edit, click_save}

module _ {R H : Type 0} where
  -- Metadata that the editor is opened with and that nobody edits is saved as it is, if no save is
  -- pending, white space ends neither the name nor a tag, and each tag is not empty and has no comma.
  pub click_save-click_edit :
      (is_live : R → Bool) (node ups : String) (detail : UpsDetail R) (d : UpsDialog R H)
      → d.node_id ≡ some node
      → d.ups_name ≡ some ups
      → d.detail ≡ some detail
      → is_live detail.body ≡ true
      → d.saving_metadata ≡ false
      → trim detail.metadata.display_name ≡ detail.metadata.display_name
      → All IsTag detail.metadata.tags
      → (click_save (click_edit is_live d)).sent
        ≡ d.sent ++ update_ups_metadata node ups detail.metadata ∷ []
  unfolding click_save click_edit open_metadata_editor save_begin
  click_save-click_edit is_live node ups detail d n u l live idle name tags =
      rw (l, live, n, u, idle, name, parse_tags-join_tags detail.metadata.tags tags) refl

  -- If the dialog is left by the browser's Back while the editor is open, the editor stays on the page,
  -- and its button sends nothing.
  pub click_save-left :
      (d : UpsDialog R H)
      → d.metadata_editor_open ≡ true
      → ((set_names none none d).metadata_editor_open ≡ true)
        × ((click_save (set_names none none d)).metadata_editor_open ≡ true)
        × ((click_save (set_names none none d)).sent ≡ d.sent)
  unfolding click_save set_names save_begin
  click_save-left d h = ground arith
