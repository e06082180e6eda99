-- ===== src/Dashboard/Menu.antt =====
-- The profile menu of agent/internal/api/web/app.js: opening, closing and keyboard navigation. The
-- item for the dialog about the node is in the panel; about.js listens to it.
-- `document.activeElement` is `focus`; that a browser moves the focus out of a hidden panel by
-- itself is not modelled.
pub mod Laws
mod Tests
use strom.Prelude.{
  ℕ, suc, ◌+◌, ◌-◌, ◌%◌, Bool, true, false, not, ◌&&◌, ◌||◌, Option, none, some, List, [], ◌∷◌, ltb,
  ◌==◌, if◌then◌else◌, length, find_index,
}

pub data Focus : Type 0 where
  trigger elsewhere : Focus
  option : ℕ → Focus

pub data Key : Type 0 where
  arrow_down arrow_up arrow_right arrow_left home end escape tab enter space other : Key

-- `options` holds the `aria-checked` of each theme option. The optional elements are `none` where
-- the page has none.
pub record Menu : Type 0 where
  pub has_panel : Bool
  pub toggles : ℕ
  pub options : List Bool
  pub is_open : Bool
  pub toolbar_open : Option Bool
  pub topbar_open : Option Bool
  pub panel_hidden : Bool
  pub expanded : Bool
  pub focus : Focus

abbrev pub set_flag : Bool → Option Bool → Option Bool
set_flag b none = none
set_flag b (some _) = some b

abbrev pub is_missing : Menu → Bool
is_missing m = not m.has_panel || m.toggles == 0

-- `els.themeOptions[i]?.focus()`
abbrev pub focus_option : ℕ → Menu → Menu
focus_option i m = if ltb i (length m.options) then record m { focus = option i } else m

abbrev first_checked : Option ℕ → ℕ
first_checked none = 0
first_checked (some i) = i

unfoldable pub focus_selected_theme_option : Menu → Menu
focus_selected_theme_option m = focus_option (first_checked (find_index (λ c. c) m.options)) m

unfoldable pub close_profile_menu : Bool → Menu → Menu
close_profile_menu focus_trigger m = if is_missing m then m else record m {
  is_open = false;
  toolbar_open = set_flag false m.toolbar_open;
  topbar_open = set_flag false m.topbar_open;
  panel_hidden = true;
  expanded = false;
  focus = if focus_trigger then trigger else m.focus;
}

unfoldable pub toggle_profile_menu : Menu → Menu
unfolding close_profile_menu focus_selected_theme_option
toggle_profile_menu m =
    if is_missing m
    then m
    else if m.is_open
    then close_profile_menu false m
    else focus_selected_theme_option (record m {
      is_open = true;
      toolbar_open = set_flag true m.toolbar_open;
      topbar_open = set_flag true m.topbar_open;
      panel_hidden = false;
      expanded = true;
    })

-- `closeMenus` of about.js, which does not see the state of app.js.
-- The flag of an element that the page does not have says nothing.
unfoldable pub close_menus : Menu → Menu
close_menus m = record m {
  toolbar_open = set_flag false m.toolbar_open;
  panel_hidden = true;
  expanded = false;
}

-- The index of the focused option, with `none` for -1.
abbrev focused_index : ℕ → Focus → Option ℕ
focused_index n (option i) = if ltb i n then some i else none
focused_index n _ = none

abbrev next_index : ℕ → Option ℕ → ℕ
next_index n none = 0
next_index n (some i) = (i + 1) % n

-- With no option at all the source's index is -1, which no element has, as here 0.
abbrev previous_index : ℕ → Option ℕ → ℕ
previous_index n none = n - 1
previous_index n (some i) = (i + n - 1) % n

abbrev focus_next : Menu → Menu
focus_next m =
    focus_option (next_index (length m.options) (focused_index (length m.options) m.focus)) m

abbrev focus_previous : Menu → Menu
focus_previous m =
    focus_option (previous_index (length m.options) (focused_index (length m.options) m.focus)) m

abbrev navigate : Key → Menu → Menu × Bool
navigate arrow_down m = (focus_next m, true)
navigate arrow_up m = (focus_previous m, true)
navigate arrow_right m = (focus_next m, true)
navigate arrow_left m = (focus_previous m, true)
navigate home m = (focus_option 0 m, true)
navigate end m = (focus_option (length m.options - 1) m, true)
navigate escape m = (close_profile_menu true m, true)
navigate tab m = (close_profile_menu false m, false)
navigate _ m = (m, false)

-- The new menu, and whether the event's default was prevented.
unfoldable pub handle_menu_option_navigation : Key → Menu → Menu × Bool
unfolding close_profile_menu
handle_menu_option_navigation key m = if m.is_open then navigate key m else (m, false)

abbrev is_opener : Key → Bool
is_opener arrow_down = true
is_opener enter = true
is_opener space = true
is_opener _ = false

-- The listeners at the end of the file: on each toggle, and on the document.
unfoldable pub handle_toggle_keydown : Key → Menu → Menu × Bool
unfolding toggle_profile_menu
handle_toggle_keydown key m =
    if is_opener key then (if m.is_open then m else toggle_profile_menu m, true) else (m, false)

unfoldable pub handle_document_click : Bool → Menu → Menu
unfolding close_profile_menu
handle_document_click inside m =
    if not m.is_open then m else if inside then m else close_profile_menu false m

abbrev is_escape : Key → Bool
is_escape escape = true
is_escape _ = false

unfoldable pub handle_document_keydown : Key → Menu → Menu
unfolding close_profile_menu
handle_document_keydown key m = if is_escape key && m.is_open then close_profile_menu true m else m

-- What a user does. A key that is pressed on a toggle or in the panel goes on to the document.
pub data Event : Type 0 where
  click_toggle : Event
  key_on_toggle : Key → Event
  key_in_panel : Key → Event
  click_document : Bool → Event
  key_on_document : Key → Event
  choose_theme : Event
  open_about : Event

unfoldable pub handle : Event → Menu → Menu
unfolding close_menus handle_toggle_keydown handle_menu_option_navigation handle_document_click
    handle_document_keydown
handle click_toggle m = toggle_profile_menu m
handle (key_on_toggle key) m = handle_document_keydown key (handle_toggle_keydown key m).0
handle (key_in_panel key) m = handle_document_keydown key (handle_menu_option_navigation key m).0
handle (click_document inside) m = handle_document_click inside m
handle (key_on_document key) m = handle_document_keydown key m
handle choose_theme m = close_profile_menu false m
handle open_about m = handle_document_click true (close_menus m)

unfoldable pub run : List Event → Menu → Menu
unfolding handle
run [] m = m
run (e ∷ es) m = run es (handle e m)
