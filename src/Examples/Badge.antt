-- ===== src/Examples/Badge.antt =====
-- web/src/components/StatusBadge.tsx and web/src/api.ts on concrete inputs.
use infra_orch_studio.Common.{ℕ, ◌≡◌, refl, true, false, none, some, Text, units}
use infra_orch_studio.Examples.{evaluation}
use infra_orch_studio.Badge.{format_status_label, badge_class}
use infra_orch_studio.Requests.Clients.{list_audit, get_job_logs, client_path_of}

abbrev show : ℕ → Text
show n = units "7"

abbrev plain : Text → Text
plain t = t

badge_tests :
    (format_status_label (some (units "Failed")) true ≡ units "실패")
    × (format_status_label (some (units "lost")) true ≡ units "lost")
    × (format_status_label none false ≡ units "unknown")
    × (badge_class (units "PLANNING") ≡ units "badge badge-running")
    × (badge_class (units "lost") ≡ units "badge badge-muted")
unfolding evaluation
badge_tests = (refl, refl, refl, refl, refl)

path_tests :
    (client_path_of show plain plain (list_audit none) ≡ units "/audit")
    × (client_path_of show plain plain (
          list_audit
            (some (record { limit = some 7; resource_type = none; resource_id = some "e1" })))
        ≡ units "/audit?limit=7&resource_id=e1")
    × (client_path_of show plain plain (get_job_logs "j1") ≡ units "/jobs/j1/logs")
unfolding evaluation
path_tests = (refl, refl, refl)
