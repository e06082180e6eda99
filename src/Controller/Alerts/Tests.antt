-- ===== src/Controller/Alerts/Tests.antt =====
-- A rule about a low battery, with a negative debounce.
use strom.Prelude.{
  ℕ, zero, suc, ◌≡◌, refl, Text, codes, decimal, Bool, true, false, [], ◌∷◌, none, leb, ◌-◌, ◌+◌,
  ◌*◌, ◌==◌, ◌&&◌, if◌then◌else◌,
}
use strom.Controller.NodeDialog.{ok}
use strom.Controller.Alerts.{
  JsNumbers, AlertsPage, low_battery, first_form, load_begin, create_begin, create_end, change_kind,
  change_debounce_seconds,
}
use strom.Controller.Alerts.Laws.{
  IsSound, start, next, submitted, create_answered, kind_chosen, debounce_typed, Session-IsTyped,
}

-- The whole numbers among JavaScript's, and NaN.
data Whole : Type 0 where
  nan : Whole
  plus minus : ℕ → Whole

abbrev add_digit : ℕ → Whole → Whole
add_digit c nan = nan
add_digit c (plus k) = if leb b'0' c && leb c b'9' then plus (10 * k + (c - 48)) else nan
add_digit c (minus k) = if leb b'0' c && leb c b'9' then minus (10 * k + (c - 48)) else nan

abbrev digits : Whole → Text → Whole
digits w [] = w
digits w (c ∷ t) = digits (add_digit c w) t

abbrev read_whole : Text → Whole
read_whole [] = plus 0
read_whole (c ∷ t) = if c == b'-' then digits (minus 0) t else digits (plus 0) (c ∷ t)

abbrev is_counted : Whole → Bool
is_counted nan = false
is_counted (plus zero) = false
is_counted (plus (suc k)) = true
is_counted (minus zero) = false
is_counted (minus (suc k)) = true

abbrev write_whole : Whole → Text
write_whole nan = codes "null"
write_whole (plus k) = decimal k
write_whole (minus k) = b'-' ∷ decimal k

abbrev wholes : JsNumbers
wholes = record {
  Number = Whole;
  of_text = read_whole;
  of_ℕ = plus;
  is_truthy = is_counted;
  to_json = write_whole;
  is_truthy-of_ℕ = λ k. refl;
}

abbrev blank : AlertsPage Whole Unit Unit
blank = record {
  rules = [];
  events = [];
  error = none;
  form = first_form wholes;
  sent = [];
  toasts = [];
}

abbrev typed_page : AlertsPage Whole Unit Unit
typed_page =
    change_debounce_seconds wholes (codes "-5") (change_kind low_battery (load_begin blank))

typed_page-debounce : typed_page.form.debounce_seconds ≡ minus 5
unfolding change_debounce_seconds change_kind load_begin codes
typed_page-debounce = refl

Session-IsTyped_example :
    IsSound wholes (create_end low_battery (ok tt) (create_begin wholes typed_page))
Session-IsTyped_example =
    Session-IsTyped wholes blank (create_end low_battery (ok tt) (create_begin wholes typed_page))
      (record { debounced = refl; typed = tt })
      (next
        (next (next (next start (kind_chosen low_battery)) (debounce_typed (codes "-5"))) submitted)
        (create_answered low_battery (ok tt)))
