-- ===== src/Dashboard/Status/Tests.antt =====
-- Status chips.
use strom.Prelude.{◌≡◌, refl, codes, [], ◌∷◌, any, if◌then◌else◌}
use strom.Dashboard.Status.{good, warn, danger, status_class, accent_class_for_status}
use strom.Dashboard.Status.Laws.{ol, lb, status_text, is_on_battery, status_class-status_text}

on_battery : status_class (codes "OB LB") ≡ warn
unfolding status_class
on_battery = refl

-- Texts that are no NUT tokens reach the danger chip.
reported_fault : status_class (codes "Fan fault") ≡ danger
unfolding status_class
reported_fault = refl

absent : accent_class_for_status [] ≡ codes "detail-shell--warn"
unfolding accent_class_for_status
absent = refl

status_class-status_text_example :
    status_class (status_text ol (lb ∷ []))
    ≡ (if any is_on_battery (ol ∷ lb ∷ []) then warn else good)
status_class-status_text_example = status_class-status_text ol (lb ∷ [])
