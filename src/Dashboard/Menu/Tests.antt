-- ===== src/Dashboard/Menu/Tests.antt =====
-- Sessions of the profile menu.
use strom.Prelude.{◌≡◌, refl, true, false, none, some, List, [], ◌∷◌, arith}
use strom.Dashboard.Menu.{
  Menu, elsewhere, option, arrow_down, click_toggle, Event, key_in_panel, open_about, handle, run,
}
use strom.Dashboard.Menu.Laws.{
  IsConsistent, hides_after_all, press, run-IsConsistent, press-arrow_down,
}

-- The page as it is loaded, with the second theme option checked and no toolbar.
abbrev page : Menu
page = record {
  has_panel = true;
  toggles = 1;
  options = false ∷ true ∷ false ∷ [];
  is_open = false;
  toolbar_open = none;
  topbar_open = some false;
  panel_hidden = true;
  expanded = false;
  focus = elsewhere;
}

abbrev opened : Menu
opened = record page {
  is_open = true;
  topbar_open = some true;
  panel_hidden = false;
  expanded = true;
  focus = option 1;
}

page-opens : run (click_toggle ∷ []) page ≡ opened
unfolding run
page-opens = refl

page-IsConsistent : IsConsistent false page
page-IsConsistent = record {
  opened = λ e. e;
  panel = refl;
  toggle = refl;
  toolbar = tt;
  topbar = refl;
  focused = tt;
}

-- After the dialog about the node, the first click closes a menu that shows nothing.
abbrev visit : List Event
visit = click_toggle ∷ key_in_panel arrow_down ∷ open_about ∷ []

visit-hides : hides_after_all visit false page ≡ true
unfolding handle
visit-hides = refl

click_closes : (run (click_toggle ∷ []) (run visit page)).is_open ≡ false
unfolding run
click_closes = refl

run-IsConsistent_example : IsConsistent true (run visit page)
unfolding handle
run-IsConsistent_example = run-IsConsistent visit false page page-IsConsistent

press-arrow_down_test : press arrow_down 5 opened ≡ record opened { focus = option 0 }
press-arrow_down_test = press-arrow_down 5 1 opened refl refl (omega arith)
