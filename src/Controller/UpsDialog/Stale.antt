-- ===== src/Controller/UpsDialog/Stale.antt =====
-- Late replies to a command and to a change of the metadata, which no guard drops.
use strom.Prelude.{String, Text, text_eq_refl, ◌≡◌, refl, Bool, true, false, some, arith}
use strom.Dashboard.Metadata.{UpsMetadata}
use strom.Controller.UpsDialog.{
  UpsDetail, ok, UpsDialog, key_of, set_names, command_begin, command_end, command_loaded,
  save_begin, save_end, Loaded, load_end,
}

module _ {R H : Type 0} where
  -- A command is run on one UPS, another one is opened, and then both replies come in.
  abbrev pub commanded_late :
      (node ups command other : String) → Text → UpsDetail R → UpsDialog R H → UpsDialog R H
  commanded_late node ups command other output old d = command_loaded (ok old) (
      set_names (some node) (some other)
        (command_end node ups (ok (output, output)) (command_begin true command true d)))

  -- If another UPS is opened before the detail that a command asks for is in, the dialog shows that
  -- detail of the first UPS while the other one is open.
  pub commanded_late-stale :
      (node ups command other : String) (output : Text) (old : UpsDetail R) (d : UpsDialog R H)
      → ((commanded_late node ups command other output old d).ups_name ≡ some other)
        × ((commanded_late node ups command other output old d).active_key
            ≡ key_of (some node) (some other))
        × ((commanded_late node ups command other output old d).detail ≡ some old)
  unfolding command_loaded set_names command_end command_begin
  commanded_late-stale node ups command other output old d = (refl, refl, refl)

module _ {R S H : Type 0} (point : S → H) (is_finite : H → Bool) where
  -- The metadata of one UPS are saved, another one is opened and its detail `l` comes in, and then
  -- the reply `metadata` to the first UPS's change.
  abbrev pub saved_late :
      (node other : String) → Loaded R S → UpsMetadata → UpsDialog R H → UpsDialog R H
  saved_late node other l metadata d = save_end (ok metadata) (
      load_end point is_finite false (key_of (some node) (some other)) (ok l)
        (set_names (some node) (some other) (save_begin d)))

  -- If another UPS is opened and loaded before the reply to a change of the metadata is in, the
  -- dialog shows the other UPS with the metadata of the first one.
  pub saved_late-mixed :
      (node other : String) (l : Loaded R S) (metadata : UpsMetadata) (d : UpsDialog R H)
      → ((saved_late node other l metadata d).ups_name ≡ some other)
        × ((saved_late node other l metadata d).detail
            ≡ some (record (l.detail) { metadata = metadata }))
  unfolding save_end set_names save_begin load_end
  saved_late-mixed node other l metadata d = (
    ground (arith, text_eq_refl (key_of (some node) (some other))),
    ground (arith, text_eq_refl (key_of (some node) (some other))),
  )
