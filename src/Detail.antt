-- ===== src/Detail.antt =====
-- web/src/pages/EnvironmentDetail.tsx and ApprovalControl.tsx: the steps and the hint that the pages
-- show of an environment, and the conditions of their buttons.
pub mod Load
pub mod Guards
pub mod Hint
use infra_orch_studio.Common.{
  ℕ, Bool, true, false, not, ◌&&◌, ◌||◌, Option, none, some, List, [], ◌∷◌, ◌++◌, String, Text,
  units, given, str_eq, ltb, ◌==◌, if◌then◌else◌, is_some, length,
}
use infra_orch_studio.Api.{User, Environment, EnvironmentSpec}
use infra_orch_studio.UiCopy.{say, or_zero}
use infra_orch_studio.Validation.Wizard.{field_errors}
use infra_orch_studio.View.{opt_given}

pub data StepState : Type 0 where
  complete current blocked : StepState

pub record WorkflowStep : Type 0 where
  pub label : Text
  pub detail : Text
  pub state : StepState

-- `['active', 'destroyed'].includes(status)`
abbrev pub is_applied : String → Bool
is_applied status = str_eq status "active" || str_eq status "destroyed"

-- `environment.approved_by_email || 'admin'`
abbrev approver : Option String → Text
approver none = units "admin"
approver (some email) = if given email then units email else units "admin"

abbrev pub has_plan : Environment → Bool
has_plan e = opt_given e.last_plan_job_id

unfoldable pub plan_step : Environment → Bool → WorkflowStep
plan_step e ko = record {
  label = say ko "계획" "Plan";
  detail =
      if str_eq e.status "planning"
      then say ko "러너가 현재 계획 산출물을 생성하고 있습니다." "Runner is generating the current plan artifact."
      else say ko "최신 계획 산출물이 이 환경에 연결되어 있습니다."
          "The latest plan artifact is attached to this environment.";
  state =
      if str_eq e.status "planning"
      then current
      else if has_plan e && not (str_eq e.status "planning")
      then complete
      else blocked;
}

unfoldable pub approval_step : Environment → Bool → WorkflowStep
approval_step e ko = record {
  label = say ko "승인" "Approval";
  detail =
      if str_eq e.approval_status "approved"
      then if ko
        then approver e.approved_by_email ++ units " 승인 완료."
        else units "Approved by " ++ (approver e.approved_by_email ++ units ".")
      else if str_eq e.status "pending_approval"
      then say ko "apply를 큐잉하기 전에 승인을 기다리고 있습니다." "Awaiting approval before apply can be queued."
      else say ko "계획이 성공하면 승인 단계가 열립니다." "Approval opens after a successful plan.";
  state =
      if str_eq e.approval_status "approved"
      then complete
      else if str_eq e.status "pending_approval"
      then current
      else blocked;
}

unfoldable pub apply_step : Environment → Bool → WorkflowStep
apply_step e ko = record {
  label = say ko "적용" "Apply";
  detail =
      if is_applied e.status
      then say ko "승인된 계획이 이미 실행되었습니다." "The approved plan has already been executed."
      else if str_eq e.status "applying"
      then say ko "현재 apply가 실행 중입니다." "Apply is currently running."
      else if str_eq e.approval_status "approved"
      then say ko "이제 승인된 계획에서 apply를 큐잉할 수 있습니다." "Apply can now be queued from the approved plan."
      else say ko "승인이 기록되기 전까지 apply는 차단됩니다." "Apply remains blocked until approval is recorded.";
  state =
      if is_applied e.status
      then complete
      else if str_eq e.status "applying" || str_eq e.approval_status "approved"
      then current
      else blocked;
}

unfoldable pub result_step : Environment → Bool → WorkflowStep
result_step e ko = record {
  label = say ko "결과" "Result";
  detail =
      if str_eq e.status "active"
      then say ko "환경이 활성 상태이며 추가 작업이 가능합니다."
          "Environment is active and available for further operations."
      else if str_eq e.status "destroyed"
      then say ko "환경이 삭제되었고 기록으로 보존됩니다."
          "Environment is destroyed and preserved as a historical record."
      else if str_eq e.status "failed"
      then say ko "실패로 라이프사이클이 멈췄습니다. 산출물과 재시도 예산을 확인하세요."
          "Lifecycle paused on failure. Review artifacts and retry budget."
      else say ko "apply가 끝나면 결과를 확인할 수 있습니다." "Result is available after apply finishes.";
  state = if is_applied e.status || str_eq e.status "failed" then current else blocked;
}

abbrev waiting_step : Bool → Text → String → String → WorkflowStep
waiting_step ko label korean english = record {
  label = label;
  detail = say ko korean english;
  state = blocked;
}

unfoldable pub build_workflow : Option Environment → Bool → List WorkflowStep
build_workflow none ko =
    waiting_step ko (say ko "계획" "Plan") "환경 상태를 불러오는 중입니다." "Loading environment state."
    ∷ waiting_step ko (say ko "승인" "Approval") "환경 데이터를 기다리는 중입니다." "Waiting for environment data."
    ∷ waiting_step ko (say ko "적용" "Apply") "환경 데이터를 기다리는 중입니다." "Waiting for environment data."
    ∷ waiting_step ko (say ko "결과" "Result") "환경 데이터를 기다리는 중입니다." "Waiting for environment data."
    ∷ []
build_workflow (some e) ko =
    plan_step e ko ∷ approval_step e ko ∷ apply_step e ko ∷ result_step e ko ∷ []

-- `viewer?.is_admin`
unfoldable pub is_admin : Option User → Bool
is_admin none = false
is_admin (some user) = elim user.is_admin [ none ↦ false | some b ↦ b ]

-- The conditions of EnvironmentDetail.tsx.
unfoldable pub can_plan_update : Option Environment → Option EnvironmentSpec → Option String → Bool
can_plan_update (some e) (some editing) none = length (field_errors editing) == 0
can_plan_update _ _ _ = false

unfoldable pub can_retry : Option Environment → Bool
can_retry none = false
can_retry (some e) = str_eq e.status "failed" && ltb (or_zero e.retry_count) (or_zero e.max_retries)

unfoldable pub can_destroy : Option Environment → Bool
can_destroy none = false
can_destroy (some e) = not (
    str_eq e.status "destroyed"
    || str_eq e.status "destroying"
    || str_eq e.status "planning"
    || str_eq e.status "applying")

-- The conditions of ApprovalControl.tsx; the typed name is compared with the environment's.
unfoldable pub can_approve : Option User → Option Environment → Bool
can_approve viewer none = false
can_approve viewer (some e) = is_admin viewer && str_eq e.status "pending_approval"

unfoldable pub can_apply : Option User → Option Environment → Bool
can_apply viewer none = false
can_apply viewer (some e) = is_admin viewer && str_eq e.approval_status "approved"

unfoldable pub can_destroy_confirmed : Option User → Option Environment → String → Bool
can_destroy_confirmed viewer none typed = false
can_destroy_confirmed viewer (some e) typed = is_admin viewer && str_eq typed e.name
