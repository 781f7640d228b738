-- ===== src/Examples/Pages.antt =====
-- web/src/pages/EnvironmentDetail.tsx and ApprovalControl.tsx on a concrete environment.
use infra_orch_studio.Common.{
  ℕ, ◌≡◌, refl, ◌↔◌, true, false, Option, none, some, List, [], ◌∷◌, String, Text, units, arith,
}
use infra_orch_studio.Examples.{evaluation}
use infra_orch_studio.Api.{User, Environment}
use infra_orch_studio.Requests.{Request, approve}
use infra_orch_studio.View.{empty_environment_spec}
use infra_orch_studio.UiCopy.{conflict_changes}
use infra_orch_studio.UiCopy.Laws.{conflict_changes-eq-nil_iff}
use infra_orch_studio.Actions.{
  Attempt, idle, executing, Page, arrived, Event, press, press_retry, answered, refused, loaded,
  step, run,
}
use infra_orch_studio.Actions.OneAtATime.{IsSteady, Began, step-IsSteady, step_sends}
use infra_orch_studio.Server.Lifecycle
use infra_orch_studio.Detail.{can_destroy}
use infra_orch_studio.Detail.Guards.{can_destroy_lem}

abbrev show : ℕ → Text
show n = units "n"

abbrev display : Text → Text
display message = message

abbrev pub ann : User
ann = record {
  id = "u1";
  email = "ann@example.com";
  is_admin = some true;
  is_disabled = none;
  created_at = none;
  updated_at = none;
}

abbrev pub stage : String → String → ℕ → Environment
stage status approval revision = record {
  id = "e1";
  name = "edge";
  status = status;
  operation = "create";
  approval_status = approval;
  spec = empty_environment_spec;
  created_by_user_id = none;
  created_by_email = none;
  approved_by_user_id = none;
  approved_by_email = none;
  approved_at = none;
  last_plan_job_id = some "job-1";
  last_apply_job_id = none;
  last_job_id = some "job-1";
  last_error = none;
  retry_count = some 1;
  max_retries = some 3;
  workdir = none;
  plan_path = none;
  outputs_json = none;
  revision = some revision;
  created_at = "2026-01-01";
  updated_at = "2026-01-01";
}

abbrev waiting : Environment
waiting = stage "pending_approval" "pending" 4

-- `environments.approve(env.id, comment, env.revision)`
abbrev approving : Option Environment → Request
approving none = approve "" [] none
approving (some e) = approve e.id [] e.revision

abbrev moved_on : Environment
moved_on = stage "approved" "approved" 5

-- A failed apply keeps its approval, and the button stays enabled.
abbrev broken : Environment
broken = stage "failed" "approved" 5

abbrev attempt : Attempt
attempt = record { label = "approve"; execute = approving; environment = some waiting }

abbrev unbusy : Option String
unbusy = none

abbrev resting : Page
resting = record {
  viewer = some ann;
  environment = some waiting;
  audit_items = [];
  jobs = [];
  error = none;
  conflict_hint = none;
  retry_label = none;
  confirming = none;
  retry = none;
  busy = none;
  phase = idle;
}

abbrev sending : Page
sending = record resting { busy = some "approve"; phase = executing attempt }

abbrev conflict : Text
conflict = units "environment changed concurrently"

-- Two refusals, each followed by a reload that shows revision 5 and by a press of the retry button.
abbrev refusals : List Event
refusals =
    refused (some conflict)
    ∷ loaded (arrived ann (stage "pending_approval" "pending" 5) [] [])
    ∷ press_retry
    ∷ refused (some conflict)
    ∷ loaded (arrived ann (stage "pending_approval" "pending" 5) [] [])
    ∷ press_retry
    ∷ []

refusals_test :
    (run show false display sending refusals).1
    ≡ approve "e1" [] (some 4) ∷ approve "e1" [] (some 4) ∷ []
unfolding evaluation
refusals_test = refl

step-IsSteady_example : IsSteady (step show false display sending answered).0
step-IsSteady_example = step-IsSteady show false display sending answered (ground arith)

step_sends_example :
    Began resting
      (step show false display resting (press "approve" approving))
      (approve "e1" [] (some 4))
unfolding evaluation
step_sends_example =
    step_sends show false display resting (press "approve" approving) (approve "e1" [] (some 4))
      (ground arith) refl

conflict_changes_example : (conflict_changes show waiting moved_on false ≡ []) ↔ (
    (waiting.revision ≡ moved_on.revision)
    × (waiting.status ≡ moved_on.status)
    × (waiting.approval_status ≡ moved_on.approval_status)
    × (waiting.last_job_id ≡ moved_on.last_job_id))
conflict_changes_example = conflict_changes-eq-nil_iff show waiting moved_on false

can_destroy_example : can_destroy (some waiting) ≡ Lifecycle.can_queue_destroy "pending_approval"
can_destroy_example = can_destroy_lem waiting
