-- ===== src/Pages/Audit/Newest.antt =====
-- The order in which web/src/pages/Audit.tsx lists the events.
use infra_orch_studio.Common.{ℕ, List, map, String}
use mathlib.Core.List.{Perm}
use infra_orch_studio.Api.{Environment, AuditEvent}
use infra_orch_studio.Js.Sort.{IsDescending, sort_descending-IsDescending, sort_descending-Perm}
use infra_orch_studio.Pages.Audit.{audit_record, merged}

-- The page lists the record of every event of the answer exactly once, a newer event before an
-- older one.
pub merged_lists :
    (time : String → ℕ) (environments : List Environment) (events : List AuditEvent)
    → Perm (merged time environments events) (map (audit_record environments) events)
      × IsDescending (λ r. time r.event.created_at) (merged time environments events)
unfolding merged
merged_lists time environments events = (
  sort_descending-Perm (λ r. time r.event.created_at) (map (audit_record environments) events),
  sort_descending-IsDescending (λ r. time r.event.created_at)
      (map (audit_record environments) events),
)
