-- ===== src/Detail/Hint.antt =====
-- `nextActionHint` of web/src/pages/EnvironmentDetail.tsx.
pub mod Tones
use infra_orch_studio.Common.{
  Bool, true, false, ◌&&◌, ◌||◌, Option, none, some, Text, str_eq, if◌then◌else◌,
}
use infra_orch_studio.Api.{User, Environment}
use infra_orch_studio.UiCopy.{say}
use infra_orch_studio.Detail.{is_admin}

pub data Tone : Type 0 where
  info warning danger success : Tone

pub record Hint : Type 0 where
  pub tone : Tone
  pub title : Text
  pub detail : Text

unfoldable pub loading_hint : Bool → Hint
loading_hint ko = record {
  tone = info;
  title = say ko "환경 로딩 중" "Loading environment";
  detail =
      say ko "작업 전 최신 환경 상태를 불러오세요." "Fetch the latest environment state before taking action.";
}

unfoldable pub failed_hint : Bool → Bool → Hint
failed_hint can_retry ko =
    if can_retry
    then record {
      tone = warning;
      title = say ko "재시도 예산이 남아 있습니다" "Retry budget is available";
      detail =
          say ko "실패한 실행을 확인하고 일시적 오류로 보이면 마지막 실패 단계를 재시도하세요."
            "Inspect the failed execution and retry the last failed step if the error looks transient.";
    }
    else record {
      tone = danger;
      title = say ko "재시도 예산이 소진되었습니다" "Retry budget exhausted";
      detail =
          say ko "새 계획을 요청하기 전에 수동 점검이 필요합니다."
            "Manual investigation is required before a new plan should be requested.";
    }

unfoldable pub pending_hint : Bool → Bool → Hint
pending_hint admin ko =
    if admin
    then record {
      tone = warning;
      title = say ko "계획 검토가 승인을 기다리고 있습니다" "Plan review is waiting for approval";
      detail =
          say ko "산출물을 검토하고 계획과 위험 수준이 허용 가능할 때만 승인하세요."
            "Review artifacts and approve only if the plan and risk posture are acceptable.";
    }
    else record {
      tone = info;
      title = say ko "관리자 승인을 기다리는 중" "Waiting for admin approval";
      detail =
          say ko "계획이 준비되었습니다. apply를 큐잉하려면 관리자의 승인이 필요합니다."
            "The plan is ready. An admin must approve it before apply can be queued.";
    }

unfoldable pub approved_hint : Bool → Bool → Hint
approved_hint admin ko =
    if admin
    then record {
      tone = success;
      title = say ko "이제 apply를 큐잉할 수 있습니다" "Apply can be queued now";
      detail =
          say ko "이 환경은 승인 게이트를 통과했고 apply 준비가 끝났습니다."
            "The environment has cleared the approval gate and is ready for apply.";
    }
    else record {
      tone = info;
      title = say ko "승인 완료, 실행 대기 중" "Approved and waiting for execution";
      detail =
          say ko "이 환경은 승인되었습니다. 이제 관리자가 apply를 큐잉할 수 있습니다."
            "This environment is approved. An admin can now queue apply.";
    }

unfoldable pub running_hint : Bool → Hint
running_hint ko = record {
  tone = info;
  title = say ko "실행이 진행 중입니다" "Execution is in progress";
  detail =
      say ko "러너 실행이 계속되는 동안 최신 작업과 산출물 업데이트를 확인하세요."
        "Follow the latest linked job and artifact updates while runner execution continues.";
}

unfoldable pub active_hint : Bool → Hint
active_hint ko = record {
  tone = success;
  title = say ko "환경이 정상 운영 중입니다" "Environment is operating normally";
  detail =
      say ko "원하는 상태가 바뀌면 update plan을 큐잉하고, 종료 시에는 보호된 destroy 경로를 사용하세요."
        "Queue an update plan for desired-state changes or use the guarded destroy path when retiring it.";
}

unfoldable pub other_hint : Bool → Hint
other_hint ko = record {
  tone = info;
  title = say ko "라이프사이클 상태 검토" "Review lifecycle state";
  detail =
      say ko "메타데이터, 최근 작업, 출력, 감사 이벤트를 보고 다음 작업을 결정하세요."
        "Use metadata, recent jobs, outputs, and audit events to decide the next action.";
}

unfoldable pub next_action_hint : Option Environment → Option User → Bool → Bool → Hint
next_action_hint none viewer can_retry ko = loading_hint ko
next_action_hint (some e) viewer can_retry ko =
    if str_eq e.status "failed"
    then failed_hint can_retry ko
    else if str_eq e.status "pending_approval"
    then pending_hint (is_admin viewer) ko
    else if str_eq e.approval_status "approved" && str_eq e.status "approved"
    then approved_hint (is_admin viewer) ko
    else if str_eq e.status "planning" || str_eq e.status "applying"
    then running_hint ko
    else if str_eq e.status "active"
    then active_hint ko
    else other_hint ko
