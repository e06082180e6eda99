-- ===== src/Dashboard/Settings/Requests.antt =====
-- The requests that applying the edited settings asks for, and how they are looked up.
use strom.Prelude.{
  String, str_eq, eq_iff, Text, ◌≡◌, refl, ap, sym, ◌∙◌, Bool, true, false, Option, none, some,
  List, [], ◌∷◌, ◌++◌, arith, any, find, if◌then◌else◌, Bool-cases, inl, inr,
}
use strom.Dashboard.Store.{Variable, Control, Request, get_detail, post_setvar}
use strom.Dashboard.Settings.{trim}

-- The text in the control of a variable.
abbrev pub value_of : String → List Control → Option Text
value_of name [] = none
value_of name (control ∷ controls) =
    let later = value_of name controls in
    if str_eq name control.name then some control.value else later

abbrev pub request_if : String → String → Bool → Option Text → List Request
request_if ups name true (some value) = post_setvar ups name (trim value) ∷ []
request_if ups name true none = []
request_if ups name false value = []

-- The requests for the edited names: each that is a writable variable with a control.
abbrev pub requests : String → List Variable → List Control → List String → List Request
requests ups variables controls [] = []
requests ups variables controls (name ∷ names) =
    request_if ups name (any (λ variable. str_eq variable.name name) variables)
      (value_of name controls)
    ++ requests ups variables controls names

-- The values of controls that were found, and whether a variable was.
abbrev value_in : Option Control → Option Text
value_in none = none
value_in (some control) = some control.value

pub value_of-find :
    (name : String) (controls : List Control)
    → value_of name controls ≡ value_in (find (λ control. str_eq name control.name) controls)
value_of-find name [] = refl
value_of-find name (c ∷ controls) = elim (Bool-cases (str_eq name c.name)) [
  | inl e ↦ rw e refl
  | inr e ↦ rw e (value_of-find name controls)
]

pub any-none :
    (name : String) (variables : List Variable)
    → find (λ variable. str_eq variable.name name) variables ≡ none
    → any (λ variable. str_eq variable.name name) variables ≡ false
any-none name [] h = refl
any-none name (v ∷ variables) h = elim (Bool-cases (str_eq v.name name)) [
  | inl e ↦ absurd (ground arith)
  | inr e ↦ rw e (any-none name variables (ground arith))
]

pub any-some :
    (name : String) (variables : List Variable) (w : Variable)
    → find (λ variable. str_eq variable.name name) variables ≡ some w
    → (any (λ variable. str_eq variable.name name) variables ≡ true) × (w.name ≡ name)
any-some name [] w h = absurd (ground arith)
any-some name (v ∷ variables) w h = elim (Bool-cases (str_eq v.name name)) [
  | inl e ↦
      let same : v ≡ w = ground arith in
      rw e (refl, ap (λ u. u.name) (sym same) ∙ (eq_iff v.name name).0 e)
  | inr e ↦ rw e (any-some name variables w (ground arith))
]

module _ (ups : String) (variables : List Variable) (controls : List Control) where
  -- The requests of the loop for `names`, and the reload.
  abbrev pub all_requests : List String → List Request
  all_requests names = requests ups variables controls names ++ get_detail ups ∷ []

  abbrev pub request_at : String → List Request
  request_at name =
      request_if ups name (any (λ variable. str_eq variable.name name) variables)
        (value_of name controls)

  pub no_value : (name : String) (b : Bool) → request_if ups name b none ≡ []
  no_value name true = refl
  no_value name false = refl
