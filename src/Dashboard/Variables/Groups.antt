-- ===== src/Dashboard/Variables/Groups.antt =====
-- The sections show each variable in the section of its group, in order.
use mathlib.Core.List.{Perm}
use strom.Prelude.{
  ℕ, Text, codes, is_prefix, ◌≡◌, refl, ap, sym, ◌∙◌, Bool, true, false, List, [], ◌∷◌, ◌++◌,
  append_assoc, append-nil, arith, ◌==◌, keep, any, map, if◌then◌else◌, All, Bool-cases, inl, inr,
}
use strom.Dashboard.Variables.{
  Group, battery, input, output, ups, device, driver, environment, other, rank, same_group, Entry,
  Section, variable_group_for, push, collect, get_group, sort_entries, render_variable_groups,
  order, section_for,
}
use strom.Dashboard.Variables.Sorting.{IsOrdered, sort_entries-perm, sort_entries-IsOrdered}

abbrev pub belongs : Group → Entry → Bool
belongs group entry = same_group group (variable_group_for entry.name)

same_group_right : (g h k : Group) → same_group h k ≡ true → same_group g k ≡ same_group g h
unfolding same_group
same_group_right g h k e = same_rank (rank g) (rank h) (rank k) e
  where
    same_rank : (a b c : ℕ) → (b == c) ≡ true → (a == c) ≡ (a == b)
    same_rank a b c q = ground arith

same_group_apart :
    (g h k : Group) → same_group h k ≡ false → same_group g k ≡ true → same_group g h ≡ false
unfolding same_group
same_group_apart g h k e f = apart (rank g) (rank h) (rank k) e f
  where
    apart : (a b c : ℕ) → (b == c) ≡ false → (a == c) ≡ true → (a == b) ≡ false
    apart a b c p q = ground arith

get_group-push :
    (g h : Group) (e : Entry) (groups : List Section)
    → get_group g (push h e groups)
      ≡ (if same_group g h then get_group g groups ++ e ∷ [] else get_group g groups)
unfolding get_group push
get_group-push g h e [] = elim (Bool-cases (same_group g h)) [
  | inl y ↦ rw y refl
  | inr y ↦ rw y refl
]
get_group-push g h e (s ∷ rest) = elim (Bool-cases (same_group h s.group)) [
  | inl y ↦ elim (Bool-cases (same_group g h)) [
    | inl z ↦ rw (y, same_group_right g h s.group y, z) refl
    | inr z ↦ rw (y, same_group_right g h s.group y, z) refl
  ]
  | inr y ↦ elim (Bool-cases (same_group g s.group)) [
    | inl z ↦ rw (y, z, same_group_apart g h s.group y z) refl
    | inr z ↦ rw (y, z, get_group-push g h e rest) refl
  ]
]

get_group-collect :
    (g : Group) (entries : List Entry) (groups : List Section)
    → get_group g (collect entries groups) ≡ get_group g groups ++ keep (belongs g) entries
unfolding collect
get_group-collect g [] groups = sym (append-nil _)
get_group-collect g (e ∷ entries) groups = elim (Bool-cases (belongs g e)) [
  | inl y ↦
      get_group-collect g entries (push (variable_group_for e.name) e groups)
      ∙ rw (get_group-push g (variable_group_for e.name) e groups, y)
          (append_assoc (get_group g groups) (e ∷ []) (keep (belongs g) entries))
  | inr y ↦
      get_group-collect g entries (push (variable_group_for e.name) e groups)
      ∙ rw (get_group-push g (variable_group_for e.name) e groups, y) refl
]

get_group-none :
    (g : Group) (groups : List Section)
    → any (λ s. same_group g s.group) groups ≡ false
    → get_group g groups ≡ []
unfolding get_group
get_group-none g [] h = refl
get_group-none g (s ∷ rest) h = elim (Bool-cases (same_group g s.group)) [
  | inl y ↦ absurd (ground arith)
  | inr y ↦ rw y (get_group-none g rest (ground arith))
]

-- The beginning of the names of each group, and the order of the sections.
abbrev prefixes : List (Text × Group)
prefixes =
    (codes "battery.", battery)
    ∷ (codes "input.", input)
    ∷ (codes "output.", output)
    ∷ (codes "ups.", ups)
    ∷ (codes "device.", device)
    ∷ (codes "driver.", driver)
    ∷ (codes "ambient.", environment)
    ∷ []

abbrev group_by : List (Text × Group) → Text → Group
group_by [] name = other
group_by ((start, group) ∷ rest) name =
    let later = group_by rest name in if is_prefix start name then group else later

abbrev pub sections_order : List Group
sections_order = battery ∷ input ∷ output ∷ ups ∷ device ∷ driver ∷ environment ∷ other ∷ []

abbrev pub is_of : Group → Entry → Bool
is_of group entry = rank group == rank (group_by prefixes entry.name)

-- A section if it has a variable.
abbrev section_if : Group → List Entry → List Section
section_if group [] = []
section_if group (entry ∷ entries) = record { group = group; entries = entry ∷ entries } ∷ []

-- The sections of the given groups.
abbrev pub sections : List Group → List Entry → List Section
sections [] entries = []
sections (group ∷ groups) entries =
    section_if group (keep (is_of group) entries) ++ sections groups entries

variable_group_for-group_by : (name : Text) → variable_group_for name ≡ group_by prefixes name
unfolding variable_group_for codes
variable_group_for-group_by name = refl

keep-belongs :
    (g : Group) (entries : List Entry) → keep (belongs g) entries ≡ keep (is_of g) entries
unfolding same_group
keep-belongs g [] = refl
keep-belongs g (e ∷ entries) = rw (variable_group_for-group_by e.name, keep-belongs g entries) refl

abbrev has_entry : List Entry → Bool
has_entry [] = false
has_entry (e ∷ entries) = true

abbrev AreFilled : List Section → Type 0
AreFilled groups = All (λ s. has_entry s.entries ≡ true) groups

has_entry-append : (xs : List Entry) (e : Entry) → has_entry (xs ++ e ∷ []) ≡ true
has_entry-append [] e = refl
has_entry-append (x ∷ xs) e = refl

push-AreFilled :
    (g : Group) (e : Entry) (groups : List Section) → AreFilled groups → AreFilled (push g e groups)
unfolding push
push-AreFilled g e [] h = (refl, tt)
push-AreFilled g e (s ∷ rest) (k, h) = elim (Bool-cases (same_group g s.group)) [
  | inl y ↦ rw y (has_entry-append s.entries e, h)
  | inr y ↦ rw y (k, push-AreFilled g e rest h)
]

collect-AreFilled :
    (entries : List Entry) (groups : List Section)
    → AreFilled groups
    → AreFilled (collect entries groups)
unfolding collect
collect-AreFilled [] groups h = h
collect-AreFilled (e ∷ entries) groups h =
    collect-AreFilled entries (push (variable_group_for e.name) e groups)
      (push-AreFilled (variable_group_for e.name) e groups h)

section_if-full :
    (g : Group) (entries : List Entry)
    → has_entry entries ≡ true
    → section_if g entries ≡ record { group = g; entries = entries } ∷ []
section_if-full g [] h = cc
section_if-full g (e ∷ entries) h = refl

module _ (groups : List Section) where
  abbrev is_there : Group → Bool
  is_there h = any (λ s. same_group h s.group) groups

get_group-full :
    (g : Group) (groups : List Section)
    → AreFilled groups
    → is_there groups g ≡ true
    → has_entry (get_group g groups) ≡ true
unfolding get_group
get_group-full g [] h e = cc
get_group-full g (s ∷ rest) (k, h) e = elim (Bool-cases (same_group g s.group)) [
  | inl y ↦ rw y k
  | inr y ↦ rw y (get_group-full g rest h (ground arith))
]

map-sections :
    (gs : List Group) (entries : List Entry) (groups : List Section)
    → AreFilled groups
    → ((g : Group) → get_group g groups ≡ keep (is_of g) entries)
    → map (section_for groups) (keep (is_there groups) gs) ≡ sections gs entries
map-sections [] entries groups h k = refl
map-sections (g ∷ gs) entries groups h k = elim (Bool-cases (is_there groups g)) [
  | inl y ↦
      rw (y, ← k g, section_if-full g (get_group g groups) (get_group-full g groups h y))
        (ap (section_for groups g ∷◌) (map-sections gs entries groups h k))
  | inr y ↦ rw (y, ← k g, get_group-none g groups y) (map-sections gs entries groups h k)
]

-- The detail shows, of the eight groups in their order, those with a variable, each once and with
-- exactly the variables of the sorted list whose names begin as those of that group do, in that order;
-- the last group has all others. The sorted list has each variable as often as it was given, and, if
-- of two different names one always is not after the other, no name is out of order.
pub render-groups :
    (not_after : Text → Text → Bool) (variables : List Entry)
    → ((a b : Text) → not_after a b ≡ false → not_after b a ≡ true)
    → (render_variable_groups not_after variables
        ≡ sections sections_order (sort_entries not_after variables))
      × (Perm (sort_entries not_after variables) variables
          × IsOrdered not_after (sort_entries not_after variables))
unfolding render_variable_groups
render-groups not_after variables total =
    let sorted : List Entry = sort_entries not_after variables in
    let groups : List Section = collect sorted [] in
    let split : (g : Group) → get_group g groups ≡ keep (is_of g) sorted =
      λ g. get_group-collect g sorted [] ∙ keep-belongs g sorted in
    (
      map-sections order sorted groups (collect-AreFilled sorted [] tt) split,
      (sort_entries-perm not_after variables, sort_entries-IsOrdered not_after total variables),
    )
