-- ===== src/Dashboard/Variables.antt =====
-- The NUT variables of a UPS in agent/internal/api/web/app.js: the text of an identifier and the
-- groups that a detail shows. `localeCompare` is a parameter, as the test that a name does not come
-- after another one.
pub mod Sorting
pub mod Groups
mod Tests
use strom.Prelude.{
  ℕ, ◌-◌, Text, codes, is_prefix, Bool, true, false, ◌&&◌, ◌||◌, List, [], ◌∷◌, ◌++◌, map, leb,
  ◌==◌, if◌then◌else◌, keep, any,
}
use strom.Dashboard.Metadata.{is_filled}

-- `split(/[._-]+/).filter(Boolean)`: the parts between the runs of separators.
abbrev is_separator : ℕ → Bool
is_separator c = c == b'.' || (c == b'_' || c == b'-')

abbrev add_char : ℕ → List Text → List Text
add_char x [] = (x ∷ []) ∷ []
add_char x (part ∷ parts) = (x ∷ part) ∷ parts

unfoldable pub split_parts : Text → List Text
split_parts [] = [] ∷ []
split_parts (x ∷ t) =
    let parts = split_parts t in if is_separator x then [] ∷ parts else add_char x parts

abbrev upper_char : ℕ → ℕ
upper_char c = if leb b'a' c && leb c b'z' then c - 32 else c

abbrev capitalize : Text → Text
capitalize [] = []
capitalize (c ∷ t) = upper_char c ∷ t

abbrev join_spaces : List Text → Text
join_spaces [] = []
join_spaces (part ∷ []) = part
join_spaces (part ∷ next ∷ parts) = part ++ b' ' ∷ join_spaces (next ∷ parts)

unfoldable pub humanize_nut_identifier : Text → Text
unfolding split_parts
humanize_nut_identifier name = join_spaces (map capitalize (keep is_filled (split_parts name)))

pub data Group : Type 0 where
  battery input output ups device driver environment other : Group

unfoldable pub variable_group_for : Text → Group
unfolding is_prefix codes
variable_group_for name =
    if is_prefix (codes "battery.") name
    then battery
    else if is_prefix (codes "input.") name
    then input
    else if is_prefix (codes "output.") name
    then output
    else if is_prefix (codes "ups.") name
    then ups
    else if is_prefix (codes "device.") name
    then device
    else if is_prefix (codes "driver.") name
    then driver
    else if is_prefix (codes "ambient.") name
    then environment
    else other

abbrev pub rank : Group → ℕ
rank battery = 0
rank input = 1
rank output = 2
rank ups = 3
rank device = 4
rank driver = 5
rank environment = 6
rank other = 7

unfoldable pub same_group : Group → Group → Bool
same_group a b = rank a == rank b

pub record Entry : Type 0 where
  pub name : Text
  pub value : Text

pub record Section : Type 0 where
  pub group : Group
  pub entries : List Entry

-- `groups.get(group).push(…)`, with a new entry of the map if there is none.
unfoldable pub push : Group → Entry → List Section → List Section
push group entry [] = record { group = group; entries = entry ∷ [] } ∷ []
push group entry (s ∷ rest) =
    let later = push group entry rest in
    if same_group group s.group
    then record s { entries = s.entries ++ entry ∷ [] } ∷ rest
    else s ∷ later

-- The `forEach`.
unfoldable pub collect : List Entry → List Section → List Section
unfolding push variable_group_for
collect [] groups = groups
collect (entry ∷ entries) groups =
    collect entries (push (variable_group_for entry.name) entry groups)

-- `groups.get(group)`, with no entries if there is none.
unfoldable pub get_group : Group → List Section → List Entry
get_group group [] = []
get_group group (s ∷ rest) =
    let later = get_group group rest in if same_group group s.group then s.entries else later

abbrev pub order : List Group
order = battery ∷ input ∷ output ∷ ups ∷ device ∷ driver ∷ environment ∷ other ∷ []

abbrev pub section_for : List Section → Group → Section
section_for groups group = record { group = group; entries = get_group group groups }

module _ (not_after : Text → Text → Bool) where
  abbrev insert_entry : Entry → List Entry → List Entry
  insert_entry e [] = e ∷ []
  insert_entry e (f ∷ rest) =
      let later = insert_entry e rest in if not_after e.name f.name then e ∷ f ∷ rest else f ∷ later

  unfoldable pub sort_entries : List Entry → List Entry
  sort_entries [] = []
  sort_entries (e ∷ rest) = insert_entry e (sort_entries rest)

  -- The sections of `renderVariableGroups`; none at all is its empty state.
  unfoldable pub render_variable_groups : List Entry → List Section
  unfolding collect get_group sort_entries same_group
  render_variable_groups variables =
      let groups = collect (sort_entries variables) [] in
      map (section_for groups) (keep (λ group. any (λ s. same_group group s.group) groups) order)
