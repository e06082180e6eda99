-- ===== src/Dashboard/Variables/Tests.antt =====
-- Three variables of a UPS, in the order of their names' lengths.
use mathlib.Core.List.{Perm}
use strom.Prelude.{Text, codes, ◌≡◌, refl, List, [], ◌∷◌, leb, length, Bool, true, false, arith}
use strom.Dashboard.Variables.{Entry, sort_entries, render_variable_groups, humanize_nut_identifier}
use strom.Dashboard.Variables.Groups.{sections_order, sections, render-groups}
use strom.Dashboard.Variables.Sorting.{IsOrdered}

abbrev by_length : Text → Text → Bool
by_length a b = leb (length a) (length b)

abbrev variables : List Entry
variables =
    record { name = codes "battery.runtime"; value = codes "900" }
    ∷ record { name = codes "ups.load"; value = codes "20" }
    ∷ record { name = codes "battery.charge"; value = codes "97" }
    ∷ []

humanize_test : humanize_nut_identifier (codes "ups.delay_start") ≡ codes "Ups Delay Start"
unfolding humanize_nut_identifier codes
humanize_test = refl

by_length-total : (a b : Text) → by_length a b ≡ false → by_length b a ≡ true
by_length-total a b h = ground arith

render-groups_example :
    (render_variable_groups by_length variables
      ≡ sections sections_order (sort_entries by_length variables))
    × (Perm (sort_entries by_length variables) variables
        × IsOrdered by_length (sort_entries by_length variables))
render-groups_example = render-groups by_length variables by_length-total
