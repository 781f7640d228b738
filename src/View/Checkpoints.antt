-- ===== src/View/Checkpoints.antt =====
-- The checkpoints of an approval, and the searches, of web/src/utils/environmentView.ts.
use infra_orch_studio.Common.{
  Bool, false, ◌&&◌, Option, none, some, List, [], ◌∷◌, String, given, str_eq, if◌then◌else◌,
}
use infra_orch_studio.Api.{Job, Environment, AuditEvent}

pub data CheckState : Type 0 where
  ready wait : CheckState

pub record Checkpoint : Type 0 where
  pub label : String
  pub state : CheckState

abbrev pub state_if : Bool → CheckState
state_if test = if test then ready else wait

-- `value === text` for an optional value, and its use as a condition.
abbrev pub opt_eq : Option String → String → Bool
opt_eq none s = false
opt_eq (some t) s = str_eq t s

abbrev pub opt_given : Option String → Bool
opt_given none = false
opt_given (some t) = given t

-- `planJob?.status`, and so on.
abbrev pub job_status : Option Job → Option String
job_status none = none
job_status (some job) = some job.status

abbrev job_has_plan : Option Job → Bool
job_has_plan none = false
job_has_plan (some job) = opt_given job.plan_path && opt_given job.workdir

abbrev pub approval_of : Option Environment → Option String
approval_of none = none
approval_of (some environment) = some environment.approval_status

unfoldable pub build_approval_checkpoints :
    Option Environment → Option Job → Bool → Bool → List Checkpoint
build_approval_checkpoints environment plan_job typed_confirmation_ready ko =
    record {
      label = if ko then "계획 작업 완료" else "Plan job completed";
      state = state_if (opt_eq (job_status plan_job) "done");
    }
    ∷ record {
      label = if ko then "계획 산출물 사용 가능" else "Plan artifact available";
      state = state_if (job_has_plan plan_job);
    }
    ∷ record {
      label = if ko then "승인 게이트 통과" else "Approval gate cleared";
      state = state_if (opt_eq (approval_of environment) "approved");
    }
    ∷ record {
      label = if ko then "삭제 확인 입력" else "Typed destroy confirmation";
      state = state_if typed_confirmation_ready;
    }
    ∷ []

abbrev plan_job_id : Option Environment → Option String
plan_job_id none = none
plan_job_id (some environment) = environment.last_plan_job_id

-- `jobs.find((item) => item.id === id)`
unfoldable pub find_job : String → List Job → Option Job
find_job id [] = none
find_job id (item ∷ items) = if str_eq item.id id then some item else find_job id items

unfoldable pub job_with_id : Option String → List Job → Option Job
job_with_id none items = none
job_with_id (some id) items = if given id then find_job id items else none

unfoldable pub find_latest_plan_job : Option Environment → List Job → Option Job
find_latest_plan_job environment items = job_with_id (plan_job_id environment) items

unfoldable pub latest_approval_event : List AuditEvent → Option AuditEvent
latest_approval_event [] = none
latest_approval_event (item ∷ items) =
    if str_eq item.action "environment.approved" then some item else latest_approval_event items
