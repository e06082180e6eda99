-- ===== src/Controller/Format/Severity.antt =====
-- The severity of a UPS status, and where it differs from the chip of the node's own dashboard.
use strom.Prelude.{
  ◌≡◌, refl, ap, ◌∙◌, ◌⊎◌, Text, Bool, true, false, ◌||◌, List, [], ◌∷◌, ◌++◌, map, arith, any,
  if◌then◌else◌,
}
use strom.Dashboard.Status.{good, status_class}
use strom.Dashboard.Status.Laws.{
  Token, ol, ob, lb, rb, chrg, dischrg, bypass, cal, off, over, trim, boost, fsd, alarm, token_text,
  status_text, is_on_battery, status_class-status_text,
}
use strom.Controller.Format.{
  StatusSeverity, error, warning, success, default, to_upper_case, split_spaces, is_error_status,
  is_warning_status, is_ok_status, is_empty, severity_from, status_to_severity,
}

-- The most severe of a list of severities, each told by its test.
abbrev pub most_severe {ℓ} :
    {A : Type ℓ} → (A → Bool) → (A → Bool) → (A → Bool) → List A → StatusSeverity
most_severe is_error is_warning is_ok xs =
    if any is_error xs
    then error
    else if any is_warning xs
    then warning
    else if any is_ok xs
    then success
    else default

empty-quiet :
    (is_error_status [] ≡ false) × (is_warning_status [] ≡ false) × (is_ok_status [] ≡ false)
unfolding is_error_status is_warning_status is_ok_status
empty-quiet = (refl, refl, refl)

severity_from-warning :
    (ts : List Text)
    → severity_from warning ts ≡ (if any is_error_status ts then error else warning)
unfolding severity_from
severity_from-warning [] = refl
severity_from-warning ([] ∷ ts) = ground (arith, severity_from-warning ts, empty-quiet)
severity_from-warning ((c ∷ t) ∷ ts) = ground (arith, severity_from-warning ts)

severity_from-success :
    (ts : List Text)
    → severity_from success ts ≡ (
        if any is_error_status ts
        then error
        else if any is_warning_status ts
        then warning
        else success)
unfolding severity_from
severity_from-success [] = refl
severity_from-success ([] ∷ ts) = ground (arith, severity_from-success ts, empty-quiet)
severity_from-success ((c ∷ t) ∷ ts) =
    ground (arith, severity_from-success ts, severity_from-warning ts)

-- The loop over the tokens, with its early return, gives the most severe of the tokens' severities,
-- in whatever order they stand: an error, else a warning, else a success, else the default.
pub severity_from-most_severe :
    (ts : List Text)
    → severity_from default ts ≡ most_severe is_error_status is_warning_status is_ok_status ts
unfolding severity_from
severity_from-most_severe [] = refl
severity_from-most_severe ([] ∷ ts) = ground (arith, severity_from-most_severe ts, empty-quiet)
severity_from-most_severe ((c ∷ t) ∷ ts) =
    ground (arith, severity_from-most_severe ts, severity_from-success ts, severity_from-warning ts)

split-last :
    (b : Bool) (t : Token) → split_spaces b [] (to_upper_case (token_text t)) ≡ token_text t ∷ []
unfolding split_spaces to_upper_case
split-last b ol = refl
split-last b _ = refl

split-first :
    (b : Bool) (t : Token) (s : Text)
    → split_spaces b [] (to_upper_case (token_text t ++ 32 ∷ s))
      ≡ token_text t ∷ split_spaces true [] (to_upper_case s)
unfolding split_spaces to_upper_case
split-first b ol s = refl
split-first b _ s = refl

split-status_text :
    (b : Bool) (t : Token) (ts : List Token)
    → split_spaces b [] (to_upper_case (status_text t ts)) ≡ map token_text (t ∷ ts)
split-status_text b t [] = split-last b t
split-status_text b t (u ∷ ts) =
    split-first b t (status_text u ts) ∙ ap (token_text t ∷◌) (split-status_text true u ts)

abbrev pub is_error_token : Token → Bool
is_error_token ob = true
is_error_token lb = true
is_error_token fsd = true
is_error_token over = true
is_error_token off = true
is_error_token alarm = true
is_error_token _ = false

abbrev pub is_warning_token : Token → Bool
is_warning_token rb = true
is_warning_token cal = true
is_warning_token bypass = true
is_warning_token trim = true
is_warning_token boost = true
is_warning_token dischrg = true
is_warning_token _ = false

abbrev pub is_ok_token : Token → Bool
is_ok_token ol = true
is_ok_token chrg = true
is_ok_token _ = false

token-tests :
    (t : Token)
    → (is_error_status (token_text t) ≡ is_error_token t)
      × (is_warning_status (token_text t) ≡ is_warning_token t)
      × (is_ok_status (token_text t) ≡ is_ok_token t)
unfolding is_error_status is_warning_status is_ok_status
token-tests ol = (refl, refl, refl)
token-tests _ = (refl, refl, refl)

module _ {ℓ} {A : Type ℓ} where
  any-map :
      (f : Token → A) (p : A → Bool) (q : Token → Bool)
      → ((t : Token) → p (f t) ≡ q t)
      → (ts : List Token) → any p (map f ts) ≡ any q ts
  any-map f p q h [] = refl
  any-map f p q h (t ∷ ts) = ground (arith, h t, any-map f p q h ts)

is_empty-status_text : (t : Token) (ts : List Token) → is_empty (status_text t ts) ≡ false
is_empty-status_text ol [] = refl
is_empty-status_text _ [] = refl
is_empty-status_text ol (u ∷ ts) = refl
is_empty-status_text _ (u ∷ ts) = refl

-- The severity of a list of NUT's tokens, joined by spaces, is an error if one of OB, LB, FSD, OVER,
-- OFF and ALARM is among them, else a warning if one of RB, CAL, BYPASS, TRIM, BOOST and DISCHRG is,
-- else a success if OL or CHRG is, else the default.
pub status_to_severity-status_text :
    (t : Token) (ts : List Token)
    → status_to_severity (status_text t ts)
      ≡ most_severe is_error_token is_warning_token is_ok_token (t ∷ ts)
unfolding status_to_severity
status_to_severity-status_text t ts =
    rw (is_empty-status_text t ts, split-status_text false t ts)
      (severity_from-most_severe (map token_text (t ∷ ts))
        ∙ rw (
          any-map token_text is_error_status is_error_token (λ u. (token-tests u).0) (t ∷ ts),
          any-map token_text is_warning_status is_warning_token (λ u. (token-tests u).1) (t ∷ ts),
          any-map token_text is_ok_status is_ok_token (λ u. (token-tests u).2) (t ∷ ts),
        ))

-- A status with a token that the controller reports as an error or a warning, none of which says
-- that the UPS is on battery, has the good chip on the node's own dashboard, while the controller
-- shows an error or a warning.
pub chip-severity-differ :
    (t : Token) (ts : List Token)
    → any is_on_battery (t ∷ ts) ≡ false
    → (any is_error_token (t ∷ ts) || any is_warning_token (t ∷ ts)) ≡ true
    → (status_class (status_text t ts) ≡ good)
      × ((status_to_severity (status_text t ts) ≡ error)
          ⊎ (status_to_severity (status_text t ts) ≡ warning))
chip-severity-differ t ts calm alert = (
  rw (status_class-status_text t ts, calm),
  rw (status_to_severity-status_text t ts) (ground arith),
)
