-- ===== src/Dashboard/Status/Laws.antt =====
-- What the status chip shows for each status that NUT can report.
use strom.Prelude.{
  ◌≡◌, refl, Text, codes, text_eq, is_infix, Bool, true, false, ◌||◌, List, [], ◌∷◌, ◌++◌, arith,
  any, if◌then◌else◌,
}
use strom.Dashboard.Status.{good, warn, status_or_unknown, to_lower_case, status_class}

-- The tokens of NUT's `ups.status`.
pub data Token : Type 0 where
  ol ob lb hb rb chrg dischrg bypass cal off over trim boost fsd alarm : Token

abbrev pub token_text : Token → Text
token_text ol = 79 ∷ 76 ∷ []
token_text ob = 79 ∷ 66 ∷ []
token_text lb = 76 ∷ 66 ∷ []
token_text hb = 72 ∷ 66 ∷ []
token_text rb = 82 ∷ 66 ∷ []
token_text chrg = 67 ∷ 72 ∷ 82 ∷ 71 ∷ []
token_text dischrg = 68 ∷ 73 ∷ 83 ∷ 67 ∷ 72 ∷ 82 ∷ 71 ∷ []
token_text bypass = 66 ∷ 89 ∷ 80 ∷ 65 ∷ 83 ∷ 83 ∷ []
token_text cal = 67 ∷ 65 ∷ 76 ∷ []
token_text off = 79 ∷ 70 ∷ 70 ∷ []
token_text over = 79 ∷ 86 ∷ 69 ∷ 82 ∷ []
token_text trim = 84 ∷ 82 ∷ 73 ∷ 77 ∷ []
token_text boost = 66 ∷ 79 ∷ 79 ∷ 83 ∷ 84 ∷ []
token_text fsd = 70 ∷ 83 ∷ 68 ∷ []
token_text alarm = 65 ∷ 76 ∷ 65 ∷ 82 ∷ 77 ∷ []

-- A status of one token or more, with a space between two.
abbrev pub status_text : Token → List Token → Text
status_text t [] = token_text t
status_text t (u ∷ ts) = token_text t ++ 32 ∷ status_text u ts

abbrev pub is_on_battery : Token → Bool
is_on_battery ob = true
is_on_battery dischrg = true
is_on_battery _ = false

abbrev is_ob : Token → Bool
is_ob ob = true
is_ob _ = false

abbrev is_dischrg : Token → Bool
is_dischrg dischrg = true
is_dischrg _ = false

abbrev never : Token → Bool
never _ = false

-- A token is found alone, or in front of a space: no search text holds a space.
record Finds (p : Text) (hit : Token → Bool) : Type 0 where
  alone : (t : Token) → is_infix p (to_lower_case (token_text t)) ≡ hit t
  first :
      (t : Token) (s : Text)
      → is_infix p (to_lower_case (token_text t ++ 32 ∷ s))
        ≡ (hit t || is_infix p (to_lower_case s))

infix-status_text :
    (p : Text) (hit : Token → Bool)
    → Finds p hit
    → (t : Token) (ts : List Token)
    → is_infix p (to_lower_case (status_text t ts)) ≡ any hit (t ∷ ts)
infix-status_text p hit f t [] = ground (arith, f.alone t)
infix-status_text p hit f t (u ∷ ts) =
    ground (arith, f.first t (status_text u ts), infix-status_text p hit f u ts)

ob_alone : (t : Token) → is_infix (codes "ob") (to_lower_case (token_text t)) ≡ is_ob t
unfolding is_infix to_lower_case codes
ob_alone ol = refl
ob_alone _ = refl

ob_first :
    (t : Token) (s : Text)
    → is_infix (codes "ob") (to_lower_case (token_text t ++ 32 ∷ s))
      ≡ (is_ob t || is_infix (codes "ob") (to_lower_case s))
unfolding is_infix to_lower_case codes
ob_first ol s = refl
ob_first _ s = refl

dischrg_alone :
    (t : Token) → is_infix (codes "dischrg") (to_lower_case (token_text t)) ≡ is_dischrg t
unfolding is_infix to_lower_case codes
dischrg_alone ol = refl
dischrg_alone _ = refl

dischrg_first :
    (t : Token) (s : Text)
    → is_infix (codes "dischrg") (to_lower_case (token_text t ++ 32 ∷ s))
      ≡ (is_dischrg t || is_infix (codes "dischrg") (to_lower_case s))
unfolding is_infix to_lower_case codes
dischrg_first ol s = refl
dischrg_first _ s = refl

replace_alone : (t : Token) → is_infix (codes "replace") (to_lower_case (token_text t)) ≡ never t
unfolding is_infix to_lower_case codes
replace_alone ol = refl
replace_alone _ = refl

replace_first :
    (t : Token) (s : Text)
    → is_infix (codes "replace") (to_lower_case (token_text t ++ 32 ∷ s))
      ≡ (never t || is_infix (codes "replace") (to_lower_case s))
unfolding is_infix to_lower_case codes
replace_first ol s = refl
replace_first _ s = refl

fault_alone : (t : Token) → is_infix (codes "fault") (to_lower_case (token_text t)) ≡ never t
unfolding is_infix to_lower_case codes
fault_alone ol = refl
fault_alone _ = refl

fault_first :
    (t : Token) (s : Text)
    → is_infix (codes "fault") (to_lower_case (token_text t ++ 32 ∷ s))
      ≡ (never t || is_infix (codes "fault") (to_lower_case s))
unfolding is_infix to_lower_case codes
fault_first ol s = refl
fault_first _ s = refl

shutdown_alone : (t : Token) → is_infix (codes "shutdown") (to_lower_case (token_text t)) ≡ never t
unfolding is_infix to_lower_case codes
shutdown_alone ol = refl
shutdown_alone _ = refl

shutdown_first :
    (t : Token) (s : Text)
    → is_infix (codes "shutdown") (to_lower_case (token_text t ++ 32 ∷ s))
      ≡ (never t || is_infix (codes "shutdown") (to_lower_case s))
unfolding is_infix to_lower_case codes
shutdown_first ol s = refl
shutdown_first _ s = refl

not-unknown :
    (t : Token) (ts : List Token)
    → text_eq (to_lower_case (status_text t ts)) (codes "unknown") ≡ false
unfolding text_eq to_lower_case codes
not-unknown ol [] = refl
not-unknown _ [] = refl
not-unknown ol (u ∷ ts) = refl
not-unknown _ (u ∷ ts) = refl

or_unknown-status_text :
    (t : Token) (ts : List Token) → status_or_unknown (status_text t ts) ≡ status_text t ts
unfolding status_or_unknown
or_unknown-status_text ol [] = refl
or_unknown-status_text _ [] = refl
or_unknown-status_text ol (u ∷ ts) = refl
or_unknown-status_text _ (u ∷ ts) = refl

any-never : (ts : List Token) → any never ts ≡ false
any-never [] = refl
any-never (t ∷ ts) = any-never ts

any-on_battery : (ts : List Token) → any is_on_battery ts ≡ (any is_ob ts || any is_dischrg ts)
any-on_battery [] = refl
any-on_battery (t ∷ ts) = ground (arith, any-on_battery ts)

Finds-ob : Finds (codes "ob") is_ob
Finds-ob = record { alone = ob_alone; first = ob_first }

Finds-dischrg : Finds (codes "dischrg") is_dischrg
Finds-dischrg = record { alone = dischrg_alone; first = dischrg_first }

Finds-replace : Finds (codes "replace") never
Finds-replace = record { alone = replace_alone; first = replace_first }

Finds-fault : Finds (codes "fault") never
Finds-fault = record { alone = fault_alone; first = fault_first }

Finds-shutdown : Finds (codes "shutdown") never
Finds-shutdown = record { alone = shutdown_alone; first = shutdown_first }

-- For every status that NUT can report, a list of its tokens, the node's chip is a warning exactly
-- if the UPS is on battery or discharging, and else is the good one: none of the other tokens, such
-- as a low battery, a battery to replace, an overload, an alarm or a forced shutdown, changes it,
-- and the danger chip is never shown.
pub status_class-status_text :
    (t : Token) (ts : List Token)
    → status_class (status_text t ts) ≡ (if any is_on_battery (t ∷ ts) then warn else good)
unfolding status_class
status_class-status_text t ts = ground (
  arith,
  or_unknown-status_text t ts,
  infix-status_text (codes "ob") is_ob Finds-ob t ts,
  infix-status_text (codes "dischrg") is_dischrg Finds-dischrg t ts,
  infix-status_text (codes "replace") never Finds-replace t ts,
  infix-status_text (codes "fault") never Finds-fault t ts,
  infix-status_text (codes "shutdown") never Finds-shutdown t ts,
  not-unknown t ts,
  any-never (t ∷ ts),
  any-on_battery (t ∷ ts),
)
