-- ===== src/Dashboard/Format.antt =====
-- The value formatters of agent/internal/api/web/app.js. Durations and sizes are non-negative
-- integers, as the agent sends them; numbers with a fraction are a parameter with their `toFixed`.
pub mod Laws
mod Tests
use strom.Prelude.{
  ℕ, zero, suc, ◌+◌, ◌*◌, ◌/◌, ◌%◌, Text, codes, decimal, Bool, Option, none, some, ◌++◌, ltb, leb,
  if◌then◌else◌,
}

abbrev unavailable : Text
unavailable = codes "unavailable"

-- `toFixed` is that of the numbers.
module _ {ℓ} {Number : Type ℓ} (to_fixed : ℕ → Number → Text) where
  unfoldable pub format_percent : Option Number → Text
  format_percent none = unavailable
  format_percent (some value) = to_fixed 0 value ++ codes "%"

  unfoldable pub format_voltage : Option Number → Text
  format_voltage none = unavailable
  format_voltage (some value) = to_fixed 1 value ++ codes " V"

abbrev duration_text : ℕ → ℕ → ℕ → Text
duration_text hours minutes seconds =
    if ltb 0 hours
    then decimal hours ++ codes "h " ++ decimal minutes ++ codes "m"
    else if ltb 0 minutes
    then decimal minutes ++ codes "m " ++ decimal seconds ++ codes "s"
    else decimal seconds ++ codes "s"

unfoldable pub format_duration : Option ℕ → Text
format_duration none = unavailable
format_duration (some total) = duration_text (total / 3600) (total % 3600 / 60) (total % 60)

-- `toFixed` of the exact quotient `p / q`: the nearest multiple, the larger one of two.
unfoldable pub tenths : ℕ → ℕ → ℕ
tenths p q = (20 * p + q) / (2 * q)

abbrev fixed_one : ℕ → ℕ → Text
fixed_one p q = decimal (tenths p q / 10) ++ codes "." ++ decimal (tenths p q % 10)

-- The loop of `formatBytes`, with the number of units that are left. A size is `bytes / scale`: a
-- division by 1024 is exact in floating point.
pub record Scaled : Type 0 where
  pub index : ℕ
  pub scale : ℕ

scale_down : ℕ → ℕ → ℕ → ℕ → Scaled
scale_down zero bytes index scale = record { index = index; scale = scale }
scale_down (suc left) bytes index scale =
    let rest = scale_down left bytes (index + 1) (scale * 1024) in
    if leb (1024 * scale) bytes then rest else record { index = index; scale = scale }

unfoldable pub unit_of : ℕ → Scaled
unfolding scale_down
unit_of bytes = scale_down 4 bytes 0 1

abbrev pub unit_name : ℕ → Text
unit_name zero = codes "B"
unit_name (suc zero) = codes "KB"
unit_name (suc (suc zero)) = codes "MB"
unit_name (suc (suc (suc zero))) = codes "GB"
unit_name _ = codes "TB"

abbrev size_text : ℕ → ℕ → Text
size_text zero bytes = decimal bytes
size_text (suc i) bytes = fixed_one bytes (unit_of bytes).scale

unfoldable pub format_bytes : ℕ → Text
unfolding unit_of tenths
format_bytes bytes =
    size_text (unit_of bytes).index bytes ++ codes " " ++ unit_name (unit_of bytes).index
