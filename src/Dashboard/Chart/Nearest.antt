-- ===== src/Dashboard/Chart/Nearest.antt =====
-- The hover snaps to a nearest element.
use strom.Prelude.{
  ◌≡◌, refl, Bool, true, false, List, [], ◌∷◌, All, Bool-cases, inl, inr, if◌then◌else◌,
}
use strom.Dashboard.Chart.{nearest_from, nearest}

-- What the order of JavaScript's finite numbers has.
pub record IsOrder {κ} {D : Type κ} (lt : D → D → Bool) : Type κ where
  pub asymmetric : (a b : D) → lt a b ≡ true → lt b a ≡ false
  pub irreflexive : (a : D) → lt a a ≡ false
  pub not_lt_trans : (a b c : D) → lt a b ≡ false → lt b c ≡ false → lt a c ≡ false

module _ {ℓ κ} {A : Type ℓ} {D : Type κ} (lt : D → D → Bool) (distance : A → D) where
  -- No element is strictly nearer than `r`.
  abbrev pub NoneNearer : A → List A → Type 0
  NoneNearer r xs = All (λ x. lt (distance x) (distance r) ≡ false) xs

  round-NoneNearer :
      IsOrder lt
      → (best x : A) (xs : List A) (b : Bool) → lt (distance x) (distance best) ≡ b
      → NoneNearer (nearest_from lt distance x xs) (x ∷ xs)
      → NoneNearer (nearest_from lt distance best xs) (best ∷ xs)
      → NoneNearer (nearest_from lt distance (if b then x else best) xs) (best ∷ x ∷ xs)
  round-NoneNearer o best x xs true e (here, later) old =
      (o.not_lt_trans _ _ _ (o.asymmetric _ _ e) here, (here, later))
  round-NoneNearer o best x xs false e new (here, later) =
      (here, (o.not_lt_trans _ _ _ e here, later))

  nearest_from-NoneNearer :
      IsOrder lt
      → (best : A) (xs : List A) → NoneNearer (nearest_from lt distance best xs) (best ∷ xs)
  nearest_from-NoneNearer o best [] = (o.irreflexive _, tt)
  nearest_from-NoneNearer o best (x ∷ xs) =
      round-NoneNearer o best x xs (lt (distance x) (distance best)) refl
        (nearest_from-NoneNearer o x xs) (nearest_from-NoneNearer o best xs)

  pub nearest_from-All :
      (P : A → Type 0) (best : A) (xs : List A)
      → P best
      → All P xs
      → P (nearest_from lt distance best xs)
  nearest_from-All P best [] b h = b
  nearest_from-All P best (x ∷ xs) b h =
      nearest_from-All P (if lt (distance x) (distance best) then x else best) xs
        (elim (Bool-cases (lt (distance x) (distance best))) [ inl e ↦ rw e h.0 | inr e ↦ rw e b ])
        h.1

  -- The element that the hover's search finds is one of the list: what all of them have it has too.
  -- No element of the list is strictly nearer.
  pub nearest_lem :
      IsOrder lt
      → (P : A → Type 0) (first : A) (rest : List A) → All P (first ∷ rest)
      → P (nearest lt distance first rest)
        × NoneNearer (nearest lt distance first rest) (first ∷ rest)
  unfolding nearest
  nearest_lem o P first rest h = (
    nearest_from-All P first (first ∷ rest) h.0 h,
    (nearest_from-NoneNearer o first (first ∷ rest)).1,
  )
