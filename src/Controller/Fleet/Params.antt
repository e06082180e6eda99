-- ===== src/Controller/Fleet/Params.antt =====
-- The search parameters of an address after one of them is set.
use strom.Prelude.{
  ◌≡◌, refl, ap, ◌∙◌, Text, text_eq, text_eq_iff, text_eq_refl, true, false, not, some, List, [],
  ◌∷◌, keep, arith,
}
use strom.Controller.Fleet.{Param, get, set}

apart :
    (a key other : Text)
    → text_eq a key ≡ true
    → text_eq key other ≡ false
    → text_eq a other ≡ false
apart a key other e ne = ap (λ k. text_eq k other) ((text_eq_iff a key).0 e) ∙ ne

pub get-set : (key value : Text) (ps : List Param) → get key (set key value ps) ≡ some value
unfolding get set
get-set key value [] = rw (text_eq_refl key)
get-set key value (p ∷ ps) = ground (arith, get-set key value ps, text_eq_refl key)

get-keep :
    (key other : Text) (ps : List Param)
    → text_eq key other ≡ false
    → get other (keep (λ q. not (text_eq q.key key)) ps) ≡ get other ps
unfolding get
get-keep key other [] ne = refl
get-keep key other (p ∷ ps) ne = ground (arith, get-keep key other ps ne, apart p.key key other)

pub get-set-other :
    (key other value : Text) (ps : List Param)
    → text_eq key other ≡ false
    → get other (set key value ps) ≡ get other ps
unfolding get set
get-set-other key other value [] ne = rw ne
get-set-other key other value (p ∷ ps) ne =
    ground
      (arith, get-set-other key other value ps ne, get-keep key other ps ne, apart p.key key other)
