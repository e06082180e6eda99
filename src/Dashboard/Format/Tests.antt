-- ===== src/Dashboard/Format/Tests.antt =====
-- Formatted values.
use strom.Prelude.{ℕ, ◌/◌, ◌%◌, ◌≡◌, refl, some, none, codes, decimal, ◌++◌, ◌==◌, if◌then◌else◌}
use strom.Dashboard.Format.{
  format_duration, format_bytes, unit_name, format_percent, format_voltage,
}
use strom.Dashboard.Format.Laws.{IsUnitOf, IsRounded, format_bytes_lem}

bytes_runs : format_bytes 1536 ≡ codes "1.5 KB"
unfolding format_bytes codes decimal
bytes_runs = refl

-- Just below a megabyte the rounded number of kilobytes is 1024.
bytes_runs_large : format_bytes 1048575 ≡ codes "1024.0 KB"
unfolding format_bytes codes decimal
bytes_runs_large = refl

duration_runs : format_duration (some 7325) ≡ codes "2h 2m"
unfolding format_duration codes decimal
duration_runs = refl

percent_runs : format_percent (λ digits value. decimal value) (some 87) ≡ codes "87%"
unfolding format_percent codes decimal
percent_runs = refl

voltage_missing : format_voltage (λ digits (value : ℕ). decimal value) none ≡ codes "unavailable"
unfolding format_voltage
voltage_missing = refl

format_bytes_lem_example :
    (i : ℕ) × (scale : ℕ) × (n : ℕ) × IsUnitOf 1536 i scale
    × IsRounded 1536 scale n
    × (format_bytes 1536
        ≡ (if i == 0 then decimal 1536 else decimal (n / 10) ++ codes "." ++ decimal (n % 10))
          ++ codes " "
          ++ unit_name i)
format_bytes_lem_example = format_bytes_lem 1536
