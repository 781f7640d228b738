-- ===== src/Pages/PlanReview.antt =====
-- web/src/pages/PlanReview.tsx: the review of a plan, with the signals that the server sends, and the
-- condition under which the page asks again. `displayImpactLine`, which matches numbers, is left out.
use infra_orch_studio.Common.{
  Bool, false, not, ◌&&◌, ◌||◌, Option, none, some, List, [], ◌∷◌, String, Text, units, truthy,
  str_eq, is_some, if◌then◌else◌,
}
use infra_orch_studio.Js.Object.{Object, string_key, get}
use infra_orch_studio.Js.Replace.{replace_first}
use infra_orch_studio.Api.{Environment, Job, AuditEvent, ReviewSignal, Severity}
use infra_orch_studio.View.{latest_approval_event}
use infra_orch_studio.Pages.Fetch.{Fetch, signed_out, failed, fetched, message_or}

-- `labelMap`
unfoldable pub label_map : Object String Text
label_map =
    ("Destroy operation", units "삭제 작업")
    ∷ ("Large instance footprint", units "큰 인스턴스 규모")
    ∷ ("Subnet capacity pressure", units "서브넷 용량 압박")
    ∷ ("Security references missing", units "보안 참조 누락")
    ∷ ("Security references inherited", units "보안 참조 상속")
    ∷ ("Template-backed plan", units "템플릿 기반 계획")
    ∷ []

-- The replacements in a detail, in their order.
unfoldable pub detail_phrases : List (String × String)
detail_phrases =
    (
      "This plan is destructive and will require an explicit confirmation before it should be approved.",
      "이 계획은 파괴적 작업이며 승인 전에 명시적 확인이 필요합니다.",
    )
    ∷ (
      "No security groups are attached. Validate tenant baseline inheritance before apply.",
      "보안 그룹이 연결되어 있지 않습니다. 적용 전에 테넌트 기본 상속을 확인하세요.",
    )
    ∷ (" will be included in the resulting environment state.", " 항목이 결과 환경 상태에 포함됩니다.")
    ∷ (" will be rendered through the fixed template path.", " 구성이 고정 템플릿 경로로 렌더링됩니다.")
    ∷ ("Network ", "네트워크 ")
    ∷ (" and subnet ", " / 서브넷 ")
    ∷ []

unfoldable pub translate_detail : List (String × String) → Text → Text
translate_detail [] detail = detail
translate_detail ((phrase, korean) ∷ rest) detail =
    translate_detail rest (replace_first (units phrase) (units korean) detail)

-- A signal as it is shown.
pub record ShownSignal : Type 0 where
  pub label : Text
  pub detail : Text
  pub severity : Severity

abbrev pub label_or_own : Option Text → String → Text
label_or_own none own = units own
label_or_own (some korean) own = if truthy korean then korean else units own

unfoldable pub display_review_signal : ReviewSignal → Bool → ShownSignal
display_review_signal signal ko = record {
  label = if ko then label_or_own (get signal.label label_map) signal.label else units signal.label;
  detail = if ko then translate_detail detail_phrases signal.detail else signal.detail;
  severity = signal.severity;
}

pub record ImpactSummary : Type 0 where
  pub downtime : Text
  pub blast_radius : Text
  pub cost_delta : Text

-- The answer of `environments.planReview`.
pub record Review : Type 0 where
  pub plan_job : Option Job
  pub review_signals : List ReviewSignal
  pub impact_summary : ImpactSummary

pub record Page : Type 0 where
  pub environment : Option Environment
  pub audit_items : List AuditEvent
  pub plan_job : Option Job
  pub review_signals : List ReviewSignal
  pub impact : Option ImpactSummary
  pub error : Option Text

-- `load`, once its requests are answered.
unfoldable pub load : Fetch (Environment × List AuditEvent × Review) → Page → Page
load signed_out page = record page { error = none }
load (failed _ message) page = record page { error = some (message_or "failed" message) }
load (fetched _ (env, audit, review)) page = record {
  environment = some env;
  audit_items = audit;
  plan_job = review.plan_job;
  review_signals = review.review_signals;
  impact = some review.impact_summary;
  error = none;
}

-- `waiting`: while it holds, the page loads every four seconds.
unfoldable pub is_waiting : Page → Bool
is_waiting page = elim page.environment [
  | none ↦ false
  | some environment ↦
      str_eq environment.status "planning"
      || str_eq environment.status "approved"
      || (str_eq environment.status "pending_approval" && not (is_some page.plan_job))
]

unfoldable pub approval_event : Page → Option AuditEvent
approval_event page = latest_approval_event page.audit_items
