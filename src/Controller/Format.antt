-- ===== src/Controller/Format.antt =====
-- controller/web/src/lib/format.ts: severities, names, messages and values as the controller shows
-- them. An absent or empty text is `[]`; case mapping is that of ASCII.
pub mod Severity
pub mod Values
mod Tests
use strom.Prelude.{
  ℕ, ◌+◌, ◌*◌, ◌/◌, ◌%◌, ◌-◌, zero, suc, Text, codes, decimal, text_eq, is_infix, Bool, true, false,
  not, ◌&&◌, ◌||◌, Option, none, some, List, [], ◌∷◌, ◌++◌, ltb, leb, ◌==◌, if◌then◌else◌, any,
}
use strom.Dashboard.Status.{to_lower_case}

pub data StatusSeverity : Type 0 where
  error warning success default : StatusSeverity

abbrev upper : ℕ → ℕ
upper c = if leb b'a' c && leb c b'z' then c - 32 else c

unfoldable pub to_upper_case : Text → Text
to_upper_case [] = []
to_upper_case (c ∷ t) = upper c ∷ to_upper_case t

-- `\s`
abbrev is_space : ℕ → Bool
is_space c =
    (leb 9 c && leb c 13)
    || c == 32
    || c == 160
    || c == 5760
    || (leb 8192 c && leb c 8202)
    || c == 8232
    || c == 8233
    || c == 8239
    || c == 8287
    || c == 12288
    || c == 65279

-- `split(/\s+/)`: `word` is the word so far, and `spaced` says that a run of spaces is being read.
unfoldable pub split_spaces : Bool → Text → Text → List Text
split_spaces spaced word [] = word ∷ []
split_spaces spaced word (c ∷ t) =
    let more = split_spaces false (word ++ c ∷ []) t in
    let run = split_spaces true [] t in
    if is_space c then (if spaced then run else word ∷ run) else more

unfoldable pub is_error_status : Text → Bool
unfolding text_eq codes
is_error_status token =
    any (text_eq token)
      (codes "OB" ∷ codes "LB" ∷ codes "FSD" ∷ codes "OVER" ∷ codes "OFF" ∷ codes "ALARM" ∷ [])

unfoldable pub is_warning_status : Text → Bool
unfolding text_eq codes
is_warning_status token = any (text_eq token) (
    codes "RB" ∷ codes "CAL" ∷ codes "BYPASS" ∷ codes "TRIM" ∷ codes "BOOST" ∷ codes "DISCHRG" ∷ [])

unfoldable pub is_ok_status : Text → Bool
unfolding text_eq codes
is_ok_status token = any (text_eq token) (codes "OL" ∷ codes "CHRG" ∷ [])

abbrev pub is_empty : Text → Bool
is_empty [] = true
is_empty (c ∷ t) = false

abbrev is_default : StatusSeverity → Bool
is_default default = true
is_default _ = false

-- One round of the loop of `statusToSeverity` that does not return.
abbrev next_severity : StatusSeverity → Text → StatusSeverity
next_severity severity token =
    if is_empty token
    then severity
    else if is_warning_status token
    then warning
    else if is_ok_status token && is_default severity
    then success
    else severity

unfoldable pub severity_from : StatusSeverity → List Text → StatusSeverity
severity_from severity [] = severity
severity_from severity (token ∷ tokens) =
    let rest = severity_from (next_severity severity token) tokens in
    if not (is_empty token) && is_error_status token then error else rest

unfoldable pub status_to_severity : Text → StatusSeverity
unfolding severity_from to_upper_case split_spaces
status_to_severity status =
    if is_empty status
    then default
    else severity_from default (split_spaces false [] (to_upper_case status))

unfoldable pub comms_state_to_severity : Text → StatusSeverity
unfolding to_lower_case text_eq codes
comms_state_to_severity state =
    let lower = to_lower_case state in
    if text_eq lower (codes "healthy")
    then success
    else if text_eq lower (codes "degraded")
    then warning
    else if text_eq lower (codes "offline")
    then error
    else default

-- `a || b`
abbrev pub or_text : Text → Text → Text
or_text [] b = b
or_text (c ∷ t) b = c ∷ t

-- The fields that `Pick` takes from a node's record.
pub record NodeNames : Type 0 where
  pub display_name : Text
  pub instance_name : Text
  pub hostname : Text
  pub id : Text

unfoldable pub format_node_display_name : NodeNames → Text
format_node_display_name node =
    or_text (or_text (or_text node.display_name node.instance_name) node.hostname) node.id

unfoldable pub format_node_reference : NodeNames → Text
unfolding format_node_display_name text_eq codes
format_node_reference node =
    let name = format_node_display_name node in
    if text_eq name node.id then name else name ++ codes " (" ++ node.id ++ codes ")"

-- What a `catch` clause can have in hand.
pub data Thrown : Type 0 where
  error_object : Text → Thrown
  string_value : Text → Thrown
  other_value : Thrown

abbrev raw_message : Thrown → Text → Text
raw_message (error_object message) fallback = message
raw_message (string_value text) fallback = or_text text fallback
raw_message other_value fallback = fallback

pub record ErrorRewrite : Type 0 where
  pub pattern_text : Text
  pub friendly : Text

pub error_rewrites : List ErrorRewrite
error_rewrites =
    record {
      pattern_text = codes "ciphertext too short";
      friendly =
          codes
            "Node detail is unavailable because controller credentials are invalid for this node. Re-adopt the node and try again.";
    }
    ∷ record {
      pattern_text = codes "unsupported protocol scheme";
      friendly =
          codes "Delivery failed: the webhook URL is missing a valid scheme (e.g. https://).";
    }
    ∷ []

unfoldable pub rewrite_error : Text → List ErrorRewrite → Text
unfolding to_lower_case is_infix
rewrite_error raw [] = raw
rewrite_error raw (r ∷ rs) =
    if is_infix r.pattern_text (to_lower_case raw) then r.friendly else rewrite_error raw rs

unfoldable pub humanize_error : Thrown → Text → Text
unfolding rewrite_error error_rewrites
humanize_error thrown fallback = rewrite_error (raw_message thrown fallback) error_rewrites

unfoldable pub format_comms_state : Text → ℕ → Text → Text
unfolding text_eq codes
format_comms_state state failures message =
    let normalized = or_text state (codes "unknown") in
    if text_eq normalized (codes "healthy")
    then codes "healthy"
    else if text_eq normalized (codes "offline")
    then if ltb 0 failures
      then codes "offline (" ++ decimal failures ++ codes " failed polls)"
      else codes "offline"
    else if text_eq normalized (codes "degraded")
    then if is_empty message then codes "degraded" else codes "degraded: " ++ message
    else codes "unknown"

abbrev duration_text : ℕ → ℕ → ℕ → Text
duration_text hours minutes seconds =
    if ltb 0 hours
    then decimal hours ++ codes "h " ++ decimal minutes ++ codes "m"
    else if ltb 0 minutes
    then decimal minutes ++ codes "m " ++ decimal seconds ++ codes "s"
    else decimal seconds ++ codes "s"

unfoldable pub format_duration : Option ℕ → Text
format_duration none = codes "unknown"
format_duration (some total) = duration_text (total / 3600) (total % 3600 / 60) (total % 60)

-- The loop of `formatBytes`, on the exact quotient `bytes / scale`.
pub record Scaled : Type 0 where
  pub unit_index : ℕ
  pub scale : ℕ

scale_down : ℕ → ℕ → ℕ → ℕ → Scaled
scale_down zero bytes unit_index scale = record { unit_index = unit_index; scale = scale }
scale_down (suc left) bytes unit_index scale =
    let rest = scale_down left bytes (unit_index + 1) (scale * 1024) in
    if leb (1024 * scale) bytes then rest else record { unit_index = unit_index; scale = scale }

abbrev unit_name : ℕ → Text
unit_name zero = codes "B"
unit_name (suc zero) = codes "KB"
unit_name (suc (suc zero)) = codes "MB"
unit_name (suc (suc (suc zero))) = codes "GB"
unit_name _ = codes "TB"

-- `toFixed` of the exact quotient: the nearest multiple, the larger one of two.
abbrev fixed_zero : ℕ → ℕ → Text
fixed_zero p q = decimal ((2 * p + q) / (2 * q))

abbrev fixed_one : ℕ → ℕ → Text
fixed_one p q =
    decimal ((20 * p + q) / (2 * q) / 10) ++ codes "." ++ decimal ((20 * p + q) / (2 * q) % 10)

abbrev scaled_text : ℕ → Scaled → Text
scaled_text bytes s =
    (if leb (10 * s.scale) bytes || s.unit_index == 0
      then fixed_zero bytes s.scale
      else fixed_one bytes s.scale)
    ++ codes " "
    ++ unit_name s.unit_index

unfoldable pub format_bytes : ℕ → Text
unfolding scale_down
format_bytes bytes =
    if leb bytes 0 then codes "unknown" else scaled_text bytes (scale_down 4 bytes 0 1)
