-- ===== src/Examples/Overviews.antt =====
-- web/src/pages/Audit.tsx, Dashboard.tsx, Jobs.tsx and Providers.tsx on concrete inputs.
use infra_orch_studio.Common.{
  ℕ, ◌≡◌, refl, ◌↔◌, true, false, none, some, Option, List, [], ◌∷◌, String, Text, units, any,
  length, Bool, str_eq, if◌then◌else◌,
}
use infra_orch_studio.Examples.{evaluation}
use infra_orch_studio.Examples.Pages.{stage}
use infra_orch_studio.Examples.Handlers.{job_of}
use infra_orch_studio.Js.Text.{starts_with}
use infra_orch_studio.Api.{AuditEvent}
use infra_orch_studio.Pages.Audit
use infra_orch_studio.Pages.Audit.{AuditRecord, approvals, counts, filtered, merged, audit_record}
use infra_orch_studio.Pages.Audit.Totals.{counter}
use infra_orch_studio.Pages.Jobs.{runner_may_be_idle, has_status, runner_may_be_idle_iff}
use infra_orch_studio.Pages.Providers
use infra_orch_studio.Pages.Providers.{
  Draft, Json, entries, initial_draft, save_provider, upsert_of,
}
use infra_orch_studio.Pages.Providers.Saved.{IsSound, save_provider-IsSound}
use infra_orch_studio.Pages.Fetch.{answered, refused}
use infra_orch_studio.Pages.Providers.Checks.{listing, reloaded, saved}
use infra_orch_studio.UiCopy.{summarize_audit_message}
use infra_orch_studio.Pages.PlanReview.{display_review_signal}
use infra_orch_studio.Api.{low}

abbrev event : String → String → String → AuditEvent
event id action at = record {
  id = id;
  resource_type = "environment";
  resource_id = "e1";
  action = action;
  actor_user_id = none;
  actor_email = some "ann@example.com";
  message = none;
  metadata_json = none;
  created_at = at;
}

-- A clock for the two dates of the example.
abbrev time : String → ℕ
time day = if str_eq day "monday" then 1 else 2

abbrev records : List AuditRecord
records = merged time (stage "active" "approved" 3 ∷ []) (
    event "a1" "environment.approved" "monday"
    ∷ event "a2" "environment.plan_failed" "tuesday"
    ∷ [])

audit_tests :
    (length records ≡ 2)
    × (counter approvals (counts records) ≡ 1)
    × (Audit.primary_environment_route "e1" (stage "active" "approved" 3 ∷ [])
        ≡ units "/environments/e1/approval")
unfolding evaluation
audit_tests = (refl, refl, refl)

runner_may_be_idle_example :
    (runner_may_be_idle (job_of "j1" "queued" ∷ job_of "j2" "done" ∷ []) ≡ true) ↔ (
      (any (has_status "queued") (job_of "j1" "queued" ∷ job_of "j2" "done" ∷ []) ≡ true)
      × (any (has_status "running") (job_of "j1" "queued" ∷ job_of "j2" "done" ∷ []) ≡ false))
unfolding evaluation
runner_may_be_idle_example = runner_may_be_idle_iff (job_of "j1" "queued" ∷ job_of "j2" "done" ∷ [])

abbrev is_web : Text → Bool
is_web = starts_with (units "https://")

abbrev parse : Text → Option Json
parse _ = some (entries ((units " compute ", some (units "https://nova ")) ∷ []))

abbrev form : Providers.Page Text
form = record {
  items = [];
  default_cloud = [];
  error = none;
  notice = none;
  saving = false;
  draft = record initial_draft { auth_url = units " https://keystone/v3" };
}

save_provider-IsSound_example :
    IsSound is_web parse (upsert_of form.draft ((units "compute", units "https://nova") ∷ []))
    × (true ≡ true)
unfolding evaluation
save_provider-IsSound_example =
    save_provider-IsSound is_web parse false form
      (upsert_of form.draft ((units "compute", units "https://nova") ∷ [])) refl

abbrev number : ℕ → Text
number n = units "1"

save_tests :
    let page = saved false form.draft (answered tt) form in
    (page.notice ≡ none)
    × ((reloaded number form.draft (listing (refused none)) page).error
        ≡ some (units "failed to load providers"))
unfolding evaluation
save_tests = (refl, refl)

wording_tests :
    (summarize_audit_message (some (units "plan APPROVED for environment e1")) true
      ≡ some (units "환경 계획 승인: e1"))
    × (summarize_audit_message (some (units "plan")) false ≡ some (units "plan"))
    × ((display_review_signal
          (record {
            label = "Template-backed plan";
            detail = units "Network a and subnet b";
            severity = low;
          })
          true).detail
        ≡ units "네트워크 a / 서브넷 b")
unfolding evaluation
wording_tests = (refl, refl, refl)
