-- ===== src/Pages/GuidedStart/Page.antt =====
-- The state of web/src/pages/GuidedStart.tsx, the end of its load, and its cards.
use infra_orch_studio.Common.{
  ℕ, Bool, true, false, Option, none, some, List, [], ◌∷◌, String, Text, units, if◌then◌else◌,
}
use infra_orch_studio.Js.Number.{Number}
use infra_orch_studio.Pages.GuidedStart.Values.{Json, null, Shown}
use infra_orch_studio.Pages.GuidedStart.Search.{
  StageKey, create, review, approval, result, stage_detail,
}

-- The state of the page. `signed_out` is a visit of the login page.
pub record GuidedPage : Type 0 where
  pub overview : Option Json
  pub status_note : Option String
  pub loading : Bool
  pub signed_out : Bool

abbrev pub initial_page : GuidedPage
initial_page = record { overview = none; status_note = none; loading = true; signed_out = false }

-- How `load` ends.
pub data LoadEnd : Type 0 where
  not_signed_in : LoadEnd
  loaded : Json → LoadEnd
  failed : LoadEnd

-- The end of `load`; a load whose effect was cleaned up only still leaves for the login page.
unfoldable pub end_load : Bool → Bool → LoadEnd → GuidedPage → GuidedPage
end_load ko cancelled not_signed_in page = record page { signed_out = true }
end_load ko cancelled (loaded answer) page =
    if cancelled
    then page
    else record page { overview = some answer; status_note = none; loading = false }
end_load ko cancelled failed page = if cancelled then page else record page {
  overview = none;
  status_note = some (
      if ko
      then "라이브 개요를 불러오지 못해 로컬 안내로 표시합니다."
      else "Live overview could not load, so local guidance is shown.");
  loading = false;
}

-- `StageCard`
pub data CardTone : Type 0 where
  primary info warning success : CardTone

pub record StageCard : Type 0 where
  pub key : StageKey
  pub title : String
  pub summary : Text
  pub detail : String
  pub link : String
  pub action : String
  pub tone : CardTone

abbrev source_of : Option Json → Json
source_of none = null
source_of (some answer) = answer

-- The four cards, before or behind the answer.
unfoldable pub cards : Shown → (Number → Bool) → ℕ → Bool → Option Json → List StageCard
unfolding stage_detail
cards shown is_one fuel ko overview =
    let summary_of = λ (key : StageKey) (fallback : String).
      stage_detail shown is_one fuel (source_of overview) key (units fallback) in
    record {
      key = create;
      title = "Create";
      summary = summary_of create (
          if ko then "요청 초안과 원하는 상태를 정리합니다." else "Shape the desired state and draft the request.");
      detail = if ko then "새 환경 요청을 시작하는 입력 단계입니다." else "Start the environment request from here.";
      link = "/create-environment";
      action = if ko then "생성 흐름 열기" else "Open create flow";
      tone = primary;
    }
    ∷ record {
      key = review;
      title = "Review";
      summary =
          summary_of review (if ko then "플랜과 영향도를 확인합니다." else "Inspect the plan and its impact.");
      detail = if ko then "현재 플랜과 변경 영향을 비교합니다." else "Compare the current plan with its impact.";
      link = "/dashboard";
      action = if ko then "검토 대시보드 열기" else "Open review dashboard";
      tone = info;
    }
    ∷ record {
      key = approval;
      title = "Approval";
      summary =
          summary_of approval
            (if ko then "승인 기준을 확인한 뒤 게이트를 엽니다." else "Confirm the gate before approval.");
      detail = if ko then "승인 가능한 변경만 다음 단계로 넘깁니다." else "Move only approved changes forward.";
      link = "/environments";
      action = if ko then "승인 대상 보기" else "See approval targets";
      tone = warning;
    }
    ∷ record {
      key = result;
      title = "Result";
      summary =
          summary_of result
            (if ko then "실행 결과와 감사 흔적을 검토합니다." else "Review the execution result and audit trail.");
      detail =
          if ko then "실행 완료 후 결과와 이력을 확인합니다." else "Inspect outcomes after execution completes.";
      link = "/jobs";
      action = if ko then "결과 열기" else "Open results";
      tone = success;
    }
    ∷ []
