-- ===== src/Dashboard/Format/Laws.antt =====
-- What the formatted durations and sizes say.
use native.Mathlib.Nat.{div-add-mod, mod-lt}
use strom.Prelude.{
  ℕ, zero, suc, ◌+◌, ◌*◌, ◌/◌, ◌%◌, ◌^◌, ◌≤◌, ◌<◌, ◌≡◌, refl, ◌⊎◌, codes, decimal, some, ◌++◌,
  arith, ltb, ◌==◌, if◌then◌else◌,
}
use strom.Dashboard.Format.{
  format_duration, tenths, Scaled, unit_of, unit_name, size_text, format_bytes,
}

-- A duration of `h` hours, `m` minutes and `s` seconds, each part in its range, is shown as hours
-- and minutes from an hour on, else as minutes and seconds from a minute on, else as seconds.
pub format_duration-parts :
    (h m s : ℕ)
    → m < 60
    → s < 60
    → format_duration (some (h * 3600 + m * 60 + s)) ≡ (
        if ltb 0 h
        then decimal h ++ codes "h " ++ decimal m ++ codes "m"
        else if ltb 0 m
        then decimal m ++ codes "m " ++ decimal s ++ codes "s"
        else decimal s ++ codes "s")
unfolding format_duration
format_duration-parts h m s hm hs =
    let hours : (h * 3600 + m * 60 + s) / 3600 ≡ h = omega arith in
    let minutes : (h * 3600 + m * 60 + s) % 3600 / 60 ≡ m = omega arith in
    let seconds : (h * 3600 + m * 60 + s) % 60 ≡ s = omega arith in rw (hours, minutes, seconds)

-- The unit of a size is the largest one that is not above the size, up to terabytes.
pub record IsUnitOf (bytes index scale : ℕ) : Type 0 where
  pub power : scale ≡ 1024 ^ index
  pub known : index ≤ 4
  pub low : (index ≡ 0) ⊎ (scale ≤ bytes)
  pub high : (index ≡ 4) ⊎ (bytes < 1024 * scale)

pub unit_of-IsUnitOf : (bytes : ℕ) → IsUnitOf bytes (unit_of bytes).index (unit_of bytes).scale
unfolding unit_of
unit_of-IsUnitOf bytes = ground arith

-- The number of tenths that is shown is within half a tenth of the quotient.
pub tenths_bounds :
    (p q : ℕ) → 0 < q → (2 * (tenths p q * q) ≤ 20 * p + q) × (20 * p < 2 * (tenths p q * q) + q)
unfolding tenths
tenths_bounds p q h =
    ground (arith, div-add-mod (20 * p + q) (2 * q), mod-lt (20 * p + q) {m = 2 * q})

scale-pos : (bytes : ℕ) → 0 < (unit_of bytes).scale
unfolding unit_of
scale-pos bytes = ground arith

-- `n` tenths of the unit are the size, rounded.
pub record IsRounded (bytes scale n : ℕ) : Type 0 where
  pub above : 2 * (n * scale) ≤ 20 * bytes + scale
  pub below : 20 * bytes < 2 * (n * scale) + scale

-- The text of a size names the largest unit that is not above it, up to terabytes. Bytes are shown
-- exactly, and any other unit with one decimal, which is off by at most half a tenth of the unit.
pub format_bytes_lem :
    (bytes : ℕ)
    → (i : ℕ) × (scale : ℕ) × (n : ℕ) × IsUnitOf bytes i scale
      × IsRounded bytes scale n
      × (format_bytes bytes
          ≡ (if i == 0 then decimal bytes else decimal (n / 10) ++ codes "." ++ decimal (n % 10))
            ++ codes " "
            ++ unit_name i)
unfolding format_bytes
format_bytes_lem bytes =
    let u : Scaled = unit_of bytes in
    let bounds = tenths_bounds bytes u.scale (scale-pos bytes) in
    (
      u.index,
      u.scale,
      tenths bytes u.scale,
      unit_of-IsUnitOf bytes,
      record { above = bounds.0; below = bounds.1 },
      text_by u.index,
    )
  where
    text_by :
        (i : ℕ)
        → size_text i bytes ++ codes " " ++ unit_name i
          ≡ (if i == 0
              then decimal bytes
              else decimal (tenths bytes (unit_of bytes).scale / 10)
                ++ codes "."
                ++ decimal (tenths bytes (unit_of bytes).scale % 10))
            ++ codes " "
            ++ unit_name i
    text_by zero = refl
    text_by (suc i) = ground arith
