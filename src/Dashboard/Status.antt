-- ===== src/Dashboard/Status.antt =====
-- The status chip of agent/internal/api/web/app.js. Case mapping is that of ASCII, the alphabet of
-- NUT's status tokens.
pub mod Laws
mod Tests
use strom.Prelude.{
  ℕ, ◌+◌, Text, codes, text_eq, is_infix, is_prefix, Bool, true, false, ◌&&◌, ◌||◌, List, [], ◌∷◌,
  ◌++◌, leb, if◌then◌else◌,
}

abbrev lower : ℕ → ℕ
lower c = if leb b'A' c && leb c b'Z' then c + 32 else c

unfoldable pub to_lower_case : Text → Text
to_lower_case [] = []
to_lower_case (c ∷ t) = lower c ∷ to_lower_case t

-- The class that `statusClass` returns; `good` is the empty one.
pub data Chip : Type 0 where
  good warn danger : Chip

-- `status || "unknown"`: an absent status is the empty text here.
unfoldable pub status_or_unknown : Text → Text
status_or_unknown [] = codes "unknown"
status_or_unknown (c ∷ t) = c ∷ t

unfoldable pub status_class : Text → Chip
unfolding to_lower_case is_infix text_eq codes status_or_unknown
status_class status =
    let normalized = to_lower_case (status_or_unknown status) in
    if is_infix (codes "ob") normalized
      || is_infix (codes "dischrg") normalized
      || text_eq normalized (codes "unknown")
    then warn
    else if is_infix (codes "replace") normalized
        || is_infix (codes "fault") normalized
        || is_infix (codes "shutdown") normalized
    then danger
    else good

abbrev pub suffix : Chip → Text
suffix good = codes "good"
suffix warn = codes "warn"
suffix danger = codes "danger"

unfoldable pub accent_class_for_status : Text → Text
unfolding status_class
accent_class_for_status status = codes "detail-shell--" ++ suffix (status_class status)
