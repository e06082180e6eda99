-- ===== src/Dashboard/Menu/Laws.antt =====
-- The parts of the page that show the menu agree, and the arrow keys go round.
use native.Mathlib.Nat.{mod-add-mod, mod-lt, mod-eq_of_lt, mod-eq-sub-mod, add-zero}
use native.Mathlib.Decide.{dec_lt}
use strom.Prelude.{
  ℕ, zero, suc, ◌+◌, ◌-◌, ◌%◌, ◌<◌, ◌≡◌, refl, ap, ◌∙◌, Bool, true, false, not, ◌&&◌, ◌||◌, Option,
  none, some, List, [], ◌∷◌, arith, length,
}
use strom.Dashboard.Menu.{
  Focus, trigger, option, Key, arrow_down, arrow_up, escape, Menu, close_profile_menu,
  toggle_profile_menu, handle_menu_option_navigation, handle_toggle_keydown, handle_document_click,
  handle_document_keydown, Event, click_toggle, key_on_toggle, key_in_panel, click_document,
  key_on_document, choose_theme, open_about, close_menus, handle, run,
}

-- An element that the page has shows whether the menu is open.
abbrev pub Shows : Bool → Option Bool → Type 0
Shows b none = Unit {0}
Shows b (some c) = c ≡ b

abbrev pub IsWithin : ℕ → Focus → Type 0
IsWithin n (option i) = i < n
IsWithin n _ = Unit {0}

-- `hides` says that the item for the dialog about the node has hidden the panel of an open menu.
pub record IsConsistent (hides : Bool) (m : Menu) : Type 0 where
  pub opened : hides ≡ true → m.is_open ≡ true
  pub panel : m.panel_hidden ≡ not m.is_open || hides
  pub toggle : m.expanded ≡ m.is_open && not hides
  pub toolbar : Shows (m.is_open && not hides) m.toolbar_open
  pub topbar : Shows m.is_open m.topbar_open
  pub focused : IsWithin (length m.options) m.focus

-- The item hides the panel if the menu is open, and it stays hidden until the menu is closed.
abbrev hides_after : Event → Bool → Menu → Bool
hides_after open_about hides m = m.is_open
hides_after e hides m = hides && (handle e m).is_open

abbrev pub hides_after_all : List Event → Bool → Menu → Bool
hides_after_all [] hides m = hides
hides_after_all (e ∷ es) hides m = hides_after_all es (hides_after e hides m) (handle e m)

module _ (h : Bool) where
  close-IsConsistent :
      (b : Bool) (m : Menu)
      → IsConsistent h m
      → IsConsistent (h && (close_profile_menu b m).is_open) (close_profile_menu b m)
  unfolding close_profile_menu
  close-IsConsistent b m v = ground arith

  toggle-IsConsistent :
      (m : Menu)
      → IsConsistent h m
      → IsConsistent (h && (toggle_profile_menu m).is_open) (toggle_profile_menu m)
  unfolding toggle_profile_menu
  toggle-IsConsistent m v = ground arith

  navigation-IsConsistent :
      (key : Key) (m : Menu)
      → IsConsistent h m
      → IsConsistent
          (h && ((handle_menu_option_navigation key m).0).is_open)
          ((handle_menu_option_navigation key m).0)
  unfolding handle_menu_option_navigation
  navigation-IsConsistent key m v = ground arith

  document_keydown-IsConsistent :
      (key : Key) (m : Menu)
      → IsConsistent h m
      → IsConsistent (h && (handle_document_keydown key m).is_open) (handle_document_keydown key m)
  unfolding handle_document_keydown
  document_keydown-IsConsistent key m v = ground arith

  toggle_keydown-IsConsistent :
      (key : Key) (m : Menu)
      → IsConsistent h m
      → IsConsistent
          (h && ((handle_toggle_keydown key m).0).is_open)
          ((handle_toggle_keydown key m).0)
  unfolding handle_toggle_keydown
  toggle_keydown-IsConsistent key m v = ground arith

  document_click-IsConsistent :
      (inside : Bool) (m : Menu)
      → IsConsistent h m
      → IsConsistent
          (h && (handle_document_click inside m).is_open)
          (handle_document_click inside m)
  unfolding handle_document_click
  document_click-IsConsistent inside m v = ground arith

  menus-IsConsistent : (m : Menu) → IsConsistent h m → IsConsistent m.is_open (close_menus m)
  unfolding close_menus
  menus-IsConsistent m v = ground arith

-- A second handler of the same event never opens the menu.
keydown_shut :
    (h : Bool) (key : Key) (m : Menu)
    → ((h && m.is_open) && (handle_document_keydown key m).is_open)
      ≡ (h && (handle_document_keydown key m).is_open)
unfolding handle_document_keydown
keydown_shut h key m = ground arith

click_inside : (m : Menu) → handle_document_click true m ≡ m
unfolding handle_document_click
click_inside m = ground arith

handle-IsConsistent :
    (e : Event) (h : Bool) (m : Menu)
    → IsConsistent h m
    → IsConsistent (hides_after e h m) (handle e m)
unfolding handle
handle-IsConsistent click_toggle h m v = toggle-IsConsistent h m v
handle-IsConsistent (key_on_toggle key) h m v =
    let first = (handle_toggle_keydown key m).0 in
    rw⁻¹ (keydown_shut h key first) (
      document_keydown-IsConsistent (h && first.is_open) key first
        (toggle_keydown-IsConsistent h key m v))
handle-IsConsistent (key_in_panel key) h m v =
    let first = (handle_menu_option_navigation key m).0 in
    rw⁻¹ (keydown_shut h key first) (
      document_keydown-IsConsistent (h && first.is_open) key first
        (navigation-IsConsistent h key m v))
handle-IsConsistent (click_document inside) h m v = document_click-IsConsistent h inside m v
handle-IsConsistent (key_on_document key) h m v = document_keydown-IsConsistent h key m v
handle-IsConsistent choose_theme h m v = close-IsConsistent h false m v
handle-IsConsistent open_about h m v = rw (click_inside (close_menus m)) (menus-IsConsistent h m v)

-- Whatever the user does, top bar and state agree on whether the menu is open, the panel, the toggles
-- and the toolbar show it as open exactly if it is open and the item for the dialog about the node was
-- not chosen since it was opened, and the focus is on no option that the menu does not have. That item
-- hides the panel of a menu that stays open, until the menu is closed.
pub run-IsConsistent :
    (es : List Event) (hides : Bool) (m : Menu)
    → IsConsistent hides m
    → IsConsistent (hides_after_all es hides m) (run es m)
unfolding run
run-IsConsistent [] h m v = v
run-IsConsistent (e ∷ es) h m v =
    run-IsConsistent es (hides_after e h m) (handle e m) (handle-IsConsistent e h m v)

-- `k` presses of one key in the panel.
abbrev pub press : Key → ℕ → Menu → Menu
press key zero m = m
press key (suc k) m = (handle_menu_option_navigation key (press key k m)).0

step_down :
    (m : Menu) (i : ℕ)
    → m.is_open ≡ true
    → m.focus ≡ option i
    → i < length m.options
    → (handle_menu_option_navigation arrow_down m).0
      ≡ record m { focus = option ((i + 1) % length m.options) }
unfolding handle_menu_option_navigation
step_down m i o f h = ground (arith, mod-lt (i + 1) {m = length m.options})

-- In an open menu, `k` presses of the down arrow move the focus from option `i` by `k` places round
-- the list of options, and change nothing else.
pub press-arrow_down :
    (k i : ℕ) (m : Menu)
    → m.is_open ≡ true
    → m.focus ≡ option i
    → i < length m.options
    → press arrow_down k m ≡ record m { focus = option ((i + k) % length m.options) }
press-arrow_down zero i m o f h =
    let same : i % length m.options ≡ i = mod-eq_of_lt h in ground (arith, add-zero i)
press-arrow_down (suc k) i m o f h =
    let n : ℕ = length m.options in
    let there : (i + k) % n < n = mod-lt (i + k) (omega arith) in
    let sum : ((i + k) % n + 1) % n ≡ (i + suc k) % n =
      mod-add-mod (i + k) n 1 ∙ ap (λ t. t % n) (omega arith) in
    ap (λ t. (handle_menu_option_navigation arrow_down t).0) (press-arrow_down k i m o f h)
    ∙ step_down (record m { focus = option ((i + k) % n) }) ((i + k) % n) o refl there
    ∙ ap (λ t. record m { focus = option t }) sum

round_back : (n i : ℕ) → i < n → ((i + 1) % n + n - 1) % n ≡ i
round_back n i h = elim (dec_lt (i + 1) n) [
  | yes p ↦
      let up : (i + 1) % n ≡ i + 1 = mod-eq_of_lt p in
      ap (λ t. (t + n - 1) % n) up
      ∙ mod-eq-sub-mod {n = i + 1 + n - 1} {m = n} (omega arith)
      ∙ ap (λ t. t % n) (omega arith)
      ∙ mod-eq_of_lt h
  | no p ↦
      let up : (i + 1) % n ≡ 0 =
        mod-eq-sub-mod (omega arith) ∙ mod-eq_of_lt {n = i + 1 - n} (omega arith) ∙ omega arith in
      ap (λ t. (t + n - 1) % n) up ∙ ap (λ t. t % n) (omega arith) ∙ mod-eq_of_lt h
]

-- The up arrow takes the focus back to where it was before the down arrow.
pub arrow_up-arrow_down :
    (i : ℕ) (m : Menu)
    → m.is_open ≡ true
    → m.focus ≡ option i
    → i < length m.options
    → (handle_menu_option_navigation arrow_up (handle_menu_option_navigation arrow_down m).0).0 ≡ m
unfolding handle_menu_option_navigation
arrow_up-arrow_down i m o f h =
    ground (arith, mod-lt (i + 1) {m = length m.options}, round_back (length m.options) i h)

-- Escape, pressed in the open panel, closes the menu and gives the focus back to the first toggle.
pub handle-escape :
    (m : Menu)
    → m.is_open ≡ true
    → m.has_panel ≡ true
    → 0 < m.toggles
    → ((handle (key_in_panel escape) m).is_open ≡ false)
      × ((handle (key_in_panel escape) m).focus ≡ trigger)
unfolding handle
handle-escape m o p t = ground arith
