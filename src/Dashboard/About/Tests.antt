-- ===== src/Dashboard/About/Tests.antt =====
-- A node with one module and one package.
use strom.Prelude.{◌≡◌, codes, true, false, none, some, arith, [], ◌∷◌, keep}
use strom.Dashboard.Menu.{elsewhere}
use strom.Dashboard.Settings.{trim}
use strom.Dashboard.Status.{to_lower_case}
use strom.Dashboard.Store.{ok, failed}
use strom.Dashboard.About.{
  Dependency, AboutData, AboutState, all, nothing, matches, render_groups, about_end, change_search,
  render_acknowledgements,
}
use strom.Dashboard.About.Laws.{
  chosen, shown, shown-render_groups, start, next, answer, type_query, IsLoaded, session-IsLoaded,
}

abbrev websocket : Dependency
websocket = record {
  name = codes "WebSocket";
  version = codes "v1.5";
  source = [];
  architecture = [];
}

abbrev nut : Dependency
nut = record {
  name = codes "nut-server";
  version = codes "2.8";
  source = [];
  architecture = codes "arm64";
}

abbrev rack : AboutData
rack = record {
  version = codes "1.0";
  serial = codes "17";
  hostname = codes "rack";
  adopted = true;
  operating_system = [];
  kernel = [];
  architecture = codes "arm64";
  go_version = codes "go1.24";
  uptime_seconds = some 90061;
  featured_dependencies = [];
  go_modules = websocket ∷ [];
  debian_packages = nut ∷ [];
}

shown-render_groups_test :
    shown (render_groups (codes " Server ") all rack)
    ≡ keep (matches (to_lower_case (trim (codes " Server ")))) (chosen all rack)
shown-render_groups_test = shown-render_groups (codes " Server ") all rack

abbrev opened : AboutState
opened = record {
  data_ = none;
  about_open = true;
  acknowledgements_open = true;
  content = nothing;
  groups = [];
  search = [];
  category = all;
  menu = record {
    has_panel = true;
    toggles = 1;
    options = [];
    is_open = false;
    toolbar_open = none;
    topbar_open = none;
    panel_hidden = true;
    expanded = false;
    focus = elsewhere;
  };
  fetches = 2;
  waiting = 2;
}

session-IsLoaded_example : IsLoaded 2 (
    about_end
      (failed (codes "Failed to fetch"))
      (change_search (codes "nut") (about_end (ok rack) opened)))
unfolding about_end change_search render_acknowledgements
session-IsLoaded_example =
    session-IsLoaded rack opened
      (about_end (failed (codes "Failed to fetch"))
        (change_search (codes "nut") (about_end (ok rack) opened)))
      (next (next start (type_query (codes "nut")))
        (answer (failed (codes "Failed to fetch")) (omega arith)))
