-- ===== src/Dashboard/Markup/Sections.antt =====
-- The frames of a UPS's tags and variables: they depend on how many there are.
use strom.Prelude.{ℕ, zero, suc, Text, ◌≡◌, refl, ap, subst, List, [], ◌∷◌, ◌++◌, map, length}
use strom.Dashboard.Variables.{battery, Entry, Section}
use strom.Dashboard.Markup.{Part, markup, rows}
use strom.Dashboard.Markup.Groups.{
  entry_parts, group_head, group_parts, groups_parts, tag_parts, tags_parts,
}
use strom.Dashboard.Markup.Skeleton.{mode_parts, shape}
use strom.Dashboard.Markup.Frames.{IsFrame, frame-append, rows-IsFrame}

-- A list of nothing but its length.
units : ℕ → List (Unit {0})
units zero = []
units (suc n) = tt ∷ units n

map-units : {A : Type 0} → (items : List A) → map (λ item. tt) items ≡ units (length items)
unfolding units
map-units [] = refl
map-units (item ∷ rest) = ap (tt ∷◌) (map-units rest)

-- Rows that are all alike.
alike-IsFrame :
    {A : Type 0}
    → (row : A → List Part) (blank : Unit {0} → List Part) → ((a : A) → IsFrame (row a) (blank tt))
    → (items : List A) → IsFrame (rows row items) (rows blank (units (length items)))
alike-IsFrame row blank f items =
    subst (λ kinds. IsFrame (rows row items) (rows blank kinds)) (map-units items)
      (rows-IsFrame row blank (λ item. tt) f items)

blank_tag : Unit {0} → List Part
blank_tag u = shape (tag_parts [])

pub blank_tags : ℕ → List Part
blank_tags zero = []
blank_tags (suc n) =
    markup "<div class=\"ups-detail-context\">"
    ∷ (rows blank_tag (units (suc n)) ++ markup "</div>" ∷ [])

tag-IsFrame : (tag : Text) → IsFrame (tag_parts tag) (blank_tag tt)
unfolding mode_parts shape blank_tag
tag-IsFrame tag = record { mode = refl; same = refl }

pub tags-IsFrame : (tags : List Text) → IsFrame (tags_parts tags) (blank_tags (length tags))
unfolding mode_parts shape blank_tags
tags-IsFrame [] = record { mode = refl; same = refl }
tags-IsFrame (tag ∷ rest) =
    frame-append {ps = markup "<div class=\"ups-detail-context\">" ∷ []}
      (record { mode = refl; same = refl })
      (frame-append (alike-IsFrame tag_parts blank_tag tag-IsFrame (tag ∷ rest))
        (record { mode = refl; same = refl }))

blank_entry : Unit {0} → List Part
blank_entry u = shape (entry_parts record { name = []; value = [] })

entry-IsFrame : (entry : Entry) → IsFrame (entry_parts entry) (blank_entry tt)
unfolding mode_parts shape blank_entry
entry-IsFrame entry = record { mode = refl; same = refl }

-- A group, by the number of its variables.
blank_group : ℕ → List Part
blank_group n =
    shape (group_head record { group = battery; entries = [] })
    ++ (rows blank_entry (units n) ++ markup "</dl>\n    </div>\n  " ∷ [])

group-IsFrame : (s : Section) → IsFrame (group_parts s) (blank_group (length s.entries))
unfolding mode_parts shape blank_group
group-IsFrame s =
    frame-append {ps = group_head s} (record { mode = refl; same = refl })
      (frame-append (alike-IsFrame entry_parts blank_entry entry-IsFrame s.entries)
        (record { mode = refl; same = refl }))

abbrev pub entry_count : Section → ℕ
entry_count s = length s.entries

pub blank_groups : List ℕ → List Part
blank_groups [] = groups_parts []
blank_groups (n ∷ rest) =
    markup "<div class=\"variable-groups\">" ∷ (rows blank_group (n ∷ rest) ++ markup "</div>" ∷ [])

pub groups-IsFrame :
    (ss : List Section) → IsFrame (groups_parts ss) (blank_groups (map entry_count ss))
unfolding mode_parts shape blank_groups
groups-IsFrame [] = record { mode = refl; same = refl }
groups-IsFrame (s ∷ rest) =
    frame-append {ps = markup "<div class=\"variable-groups\">" ∷ []}
      (record { mode = refl; same = refl })
      (frame-append (rows-IsFrame group_parts blank_group entry_count group-IsFrame (s ∷ rest))
        (record { mode = refl; same = refl }))
