-- ===== src/Dashboard/Variables/Sorting.antt =====
-- The sorted variables of a UPS.
use mathlib.Core.List.{Perm}
use mathlib.Core.List.Perm
use strom.Prelude.{Text, ◌≡◌, Bool, true, false, List, [], ◌∷◌, arith, Bool-cases, inl, inr}
use strom.Dashboard.Variables.{Entry, insert_entry, sort_entries}

module _ (not_after : Text → Text → Bool) where
  -- No name comes before the one in front of it.
  abbrev pub IsOrdered : List Entry → Type 0
  IsOrdered [] = Unit
  IsOrdered (e ∷ []) = Unit
  IsOrdered (e ∷ f ∷ rest) = (not_after e.name f.name ≡ true) × IsOrdered (f ∷ rest)

  insert_entry-perm :
      (e : Entry) (rest : List Entry) → Perm (insert_entry not_after e rest) (e ∷ rest)
  insert_entry-perm e [] = Perm.refl _
  insert_entry-perm e (f ∷ rest) = elim (Bool-cases (not_after e.name f.name)) [
    | inl y ↦ rw y (Perm.refl _)
    | inr y ↦ rw y (Perm.trans (Perm.cons f (insert_entry-perm e rest)) (Perm.swap e f rest))
  ]

  pub sort_entries-perm : (entries : List Entry) → Perm (sort_entries not_after entries) entries
  unfolding sort_entries
  sort_entries-perm [] = Perm.refl _
  sort_entries-perm (e ∷ rest) =
      Perm.trans (insert_entry-perm e (sort_entries not_after rest))
        (Perm.cons e (sort_entries-perm rest))

  module _ (total : (a b : Text) → not_after a b ≡ false → not_after b a ≡ true) where
    insert_entry-IsOrdered :
        (e : Entry) (rest : List Entry) → IsOrdered rest → IsOrdered (insert_entry not_after e rest)
    insert_entry-IsOrdered e [] h = tt
    insert_entry-IsOrdered e (f ∷ []) h = elim (Bool-cases (not_after e.name f.name)) [
      | inl y ↦ rw y (y, tt)
      | inr y ↦ rw y (total e.name f.name y, tt)
    ]
    insert_entry-IsOrdered e (f ∷ g ∷ rest) h =
        let later = insert_entry-IsOrdered e (g ∷ rest) h.1 in
        elim (Bool-cases (not_after e.name f.name)) [
          | inl y ↦ rw y (y, h)
          | inr y ↦ elim (Bool-cases (not_after e.name g.name)) [
            | inl z ↦ rw (y, z) (total e.name f.name y, (z, h.1))
            | inr z ↦ rw (y, z) (h.0, ground arith)
          ]
        ]

    pub sort_entries-IsOrdered : (entries : List Entry) → IsOrdered (sort_entries not_after entries)
    unfolding sort_entries
    sort_entries-IsOrdered [] = tt
    sort_entries-IsOrdered (e ∷ rest) =
        insert_entry-IsOrdered e (sort_entries not_after rest) (sort_entries-IsOrdered rest)
