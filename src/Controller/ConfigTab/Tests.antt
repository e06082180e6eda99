-- ===== src/Controller/ConfigTab/Tests.antt =====
-- A label is typed and saved.
use strom.Prelude.{codes, false, [], All}
use strom.Controller.ConfigTab.{ConfigTab, handle_save, save_finally, type_labels}
use strom.Controller.ConfigTab.Laws.{
  IsShort, Session, start, next, type_all, save, done, Session-IsShort,
}

abbrev blank : ConfigTab
blank = record {
  display_name = [];
  location_label = [];
  site_label = [];
  saving = false;
  saved = [];
}

abbrev saved_once : ConfigTab
saved_once =
    save_finally (handle_save (type_labels (codes " Rack 2 ") (codes "east") (codes "hq") blank))

abbrev session : Session blank saved_once
session =
    next (next (next start (type_all (codes " Rack 2 ") (codes "east") (codes "hq"))) save) done

Session-IsShort_test : All IsShort saved_once.saved
Session-IsShort_test = Session-IsShort session tt
