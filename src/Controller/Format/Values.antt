-- ===== src/Controller/Format/Values.antt =====
-- The controller's texts against those of the node's own dashboard, and its error messages.
use strom.Prelude.{
  ℕ, ◌*◌, ◌<◌, ◌≡◌, refl, ◌⊎◌, Text, codes, is_infix, some, arith, inl, inr, Bool-cases,
}
use strom.Dashboard.Format as Node
use strom.Dashboard.Status.{to_lower_case}
use strom.Controller.Format.{
  Thrown, error_object, rewrite_error, error_rewrites, humanize_error, format_duration,
  format_bytes,
}

-- Both clients show a duration that is there in the same way.
pub format_duration-eq :
    (seconds : ℕ) → format_duration (some seconds) ≡ Node.format_duration (some seconds)
unfolding format_duration Node.format_duration
format_duration-eq seconds = refl

-- Both clients show a size in the same way as long as it is below ten of its unit, or below 1024
-- bytes and not 0.
pub format_bytes-eq :
    (bytes : ℕ)
    → 0 < bytes
    → (bytes < 10 * (Node.unit_of bytes).scale) ⊎ (bytes < 1024)
    → format_bytes bytes ≡ Node.format_bytes bytes
unfolding format_bytes Node.format_bytes
format_bytes-eq bytes pos small = ground arith

friendly-fixed :
    (raw : Text)
    → rewrite_error (rewrite_error raw error_rewrites) error_rewrites
      ≡ rewrite_error raw error_rewrites
unfolding rewrite_error error_rewrites codes
friendly-fixed raw =
    elim (Bool-cases (is_infix (codes "ciphertext too short") (to_lower_case raw))) [
      | inl e ↦ rw e
      | inr e ↦
          elim (Bool-cases (is_infix (codes "unsupported protocol scheme") (to_lower_case raw))) [
            | inl u ↦ rw (e, u)
            | inr u ↦ rw (e, u) (rw (e, u))
          ]
    ]

-- Rewriting an error message a second time, with whatever fallback, changes nothing: no friendly
-- text holds a pattern of a raw one.
pub humanize_error_idempotent :
    (thrown : Thrown) (fallback fallback' : Text)
    → humanize_error (error_object (humanize_error thrown fallback)) fallback'
      ≡ humanize_error thrown fallback
unfolding humanize_error
humanize_error_idempotent thrown fallback fallback' = friendly-fixed _
