-- ===== src/Controller/Format/Tests.antt =====
-- Severities, names and values as the controller shows them.
use strom.Prelude.{
  ◌≡◌, refl, ◌⊎◌, inl, inr, codes, Text, Bool, true, false, ◌<◌, ◌*◌, none, some, [], ◌∷◌, any,
  arith,
}
use strom.Dashboard.Format as Node
use strom.Dashboard.Status.{good, status_class}
use strom.Dashboard.Status.Laws.{ol, lb, rb, status_text}
use strom.Controller.Format.{
  error, warning, status_to_severity, comms_state_to_severity, format_node_reference,
  format_comms_state, format_bytes,
}
use strom.Controller.Format.Severity.{
  most_severe, is_error_token, is_warning_token, is_ok_token, status_to_severity-status_text,
  chip-severity-differ,
}
use strom.Controller.Format.Values.{format_bytes-eq}

comms_runs : comms_state_to_severity (codes "Degraded") ≡ warning
unfolding comms_state_to_severity
comms_runs = refl

offline_runs : format_comms_state (codes "offline") 3 [] ≡ codes "offline (3 failed polls)"
unfolding format_comms_state codes strom.Prelude.decimal
offline_runs = refl

reference_runs :
    format_node_reference (record {
      display_name = [];
      instance_name = codes "attic";
      hostname = codes "pi";
      id = codes "n1";
    })
    ≡ codes "attic (n1)"
unfolding format_node_reference
reference_runs = refl

status_to_severity-status_text_example :
    status_to_severity (status_text ol (rb ∷ []))
    ≡ most_severe is_error_token is_warning_token is_ok_token (ol ∷ rb ∷ [])
status_to_severity-status_text_example = status_to_severity-status_text ol (rb ∷ [])

chip-severity-differ_test :
    (status_class (status_text ol (lb ∷ [])) ≡ good)
    × ((status_to_severity (status_text ol (lb ∷ [])) ≡ error)
        ⊎ (status_to_severity (status_text ol (lb ∷ [])) ≡ warning))
chip-severity-differ_test = chip-severity-differ ol (lb ∷ []) refl refl

format_bytes-eq_test : format_bytes 1536 ≡ Node.format_bytes 1536
unfolding Node.unit_of
format_bytes-eq_test = format_bytes-eq 1536 (omega arith) (inl (omega arith))
