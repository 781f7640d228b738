-- ===== src/UiCopy/Errors.antt =====
-- The part of web/src/utils/uiCopy.ts on errors and on concurrent changes.
use infra_orch_studio.Common.{
  ℕ, Bool, true, false, not, ◌&&◌, ◌||◌, Option, none, some, List, [], ◌∷◌, ◌++◌, String, Text,
  units, truthy, given, str_eq, ◌==◌, if◌then◌else◌, take,
}
use infra_orch_studio.Js.Text.{includes, join, to_lower}
use infra_orch_studio.Api.{Environment}

-- `message?.…`: a missing or empty message is false in a condition.
abbrev pub text_given : Option Text → Bool
text_given none = false
text_given (some t) = truthy t

unfoldable pub says_conflict : Text → Bool
says_conflict normalized =
    includes (units "environment changed concurrently") normalized
    || includes (units "revision precondition failed") normalized

unfoldable pub is_revision_conflict_error : Option Text → Bool
is_revision_conflict_error none = false
is_revision_conflict_error (some message) = truthy message && says_conflict (to_lower message)

unfoldable pub short_job : Option String → Text
short_job none = units "-"
short_job (some id) = if given id then take 8 (units id) else units "-"

abbrev pub say : Bool → String → String → Text
say ko korean english = if ko then units korean else units english

-- `a !== b` for optional values.
abbrev pub opt_differ {ℓ} : {A : Type ℓ} → (A → A → Bool) → Option A → Option A → Bool
opt_differ same none none = false
opt_differ same none (some _) = true
opt_differ same (some _) none = true
opt_differ same (some a) (some b) = not (same a b)

-- `revision ?? 0`
abbrev pub or_zero : Option ℕ → ℕ
or_zero none = 0
or_zero (some n) = n

-- `if (test) changes.push(line)`
abbrev pub push_if : Bool → Text → List Text → List Text
push_if test line lines = if test then lines ++ line ∷ [] else lines

-- "<what> <before> -> <after>"
abbrev pub change_line : Text → Text → Text → Text
change_line what before after = what ++ (before ++ (units " -> " ++ after))

-- What JavaScript prints for a whole number is a parameter.
module _ (show : ℕ → Text) where
  unfoldable pub conflict_changes : Environment → Environment → Bool → List Text
  conflict_changes previous current ko =
      let changes =
        push_if (opt_differ (λ a b. a == b) previous.revision current.revision)
          (change_line (say ko "리비전 " "revision ") (show (or_zero previous.revision))
            (show (or_zero current.revision)))
          [] in
      let changes =
        push_if (not (str_eq previous.status current.status))
          (change_line (say ko "상태 " "status ") (units previous.status) (units current.status))
          changes in
      let changes =
        push_if (not (str_eq previous.approval_status current.approval_status))
          (change_line (say ko "승인 " "approval ") (units previous.approval_status)
            (units current.approval_status))
          changes in
      push_if (opt_differ str_eq previous.last_job_id current.last_job_id)
        (change_line (say ko "마지막 작업 " "last job ") (short_job previous.last_job_id)
          (short_job current.last_job_id))
        changes

  unfoldable pub conflict_line : List Text → Bool → Text
  conflict_line [] ko =
      say ko "최신 환경 상태를 다시 불러왔지만 주요 필드는 동일합니다. 다시 시도해 보세요."
        "The latest environment state was reloaded and key fields are unchanged. Please retry."
  conflict_line (c ∷ changes) ko =
      say ko "동시 변경이 감지되어 상태를 갱신했습니다: " "Concurrent changes detected; state refreshed: "
      ++ join (units ", ") (c ∷ changes)

  unfoldable pub summarize_conflict_delta : Option Environment → Option Environment → Bool → Text
  summarize_conflict_delta (some previous) (some current) ko =
      conflict_line (conflict_changes previous current ko) ko
  summarize_conflict_delta _ _ ko =
      say ko "최신 환경 상태를 다시 불러왔습니다. 화면 값을 확인한 뒤 다시 시도하세요."
        "The latest environment state was reloaded. Review the updated values and retry."

-- The part of `summarizeOperatorError` after the test for a missing message.
unfoldable pub operator_message : Bool → Text → Text → Text
operator_message ko normalized message =
    if includes (units "no such file or directory") normalized
      && includes (units "/templates/") normalized
    then say ko "선택한 템플릿 경로를 서버에서 찾을 수 없습니다. 템플릿 카탈로그를 동기화한 뒤 다시 시도하세요."
        "The selected template path is not available on the server. Sync the template catalog before retrying."
    else if includes (units "template") normalized && includes (units "not found") normalized
    then say ko "참조한 템플릿을 찾지 못했습니다. 템플릿 카탈로그를 확인한 뒤 계획을 다시 시도하세요."
        "The referenced template could not be found. Check the template catalog and retry the plan."
    else if includes (units "list environment jobs failed") normalized
    then say ko "이 환경에 연결된 실행 기록을 콘솔에서 불러오지 못했습니다."
        "The console could not load linked execution records for this environment."
    else if includes (units "list jobs failed") normalized
    then say ko "실행 ledger를 불러오지 못했습니다." "The execution ledger could not be loaded."
    else if includes (units "failed to load templates") normalized
        || includes (units "list templates failed") normalized
    then say ko "설정된 서버 경로에서 템플릿 카탈로그를 불러오지 못했습니다."
        "The template catalog could not be loaded from the configured server paths."
    else if includes (units "failed to load dashboard") normalized
    then say ko "대시보드를 불러오지 못했습니다." "The dashboard could not be loaded."
    else if includes (units "failed to load audit records") normalized
    then say ko "감사 기록을 불러오지 못했습니다." "The audit records could not be loaded."
    else if includes (units "failed to load review preview") normalized
    then say ko "검토 미리보기를 불러오지 못했습니다." "The review preview could not be loaded."
    else if includes (units "failed to load provider resources") normalized
    then say ko "공급자 자원 정보를 불러오지 못했습니다." "Provider resources could not be loaded."
    else if includes (units "failed to save local draft") normalized
    then say ko "로컬 초안을 저장하지 못했습니다." "The local draft could not be saved."
    else if includes (units "failed to create environment") normalized
    then say ko "환경을 생성하지 못했습니다." "The environment could not be created."
    else if includes (units "failed to generate request draft") normalized
    then say ko "요청 초안을 생성하지 못했습니다." "The request draft could not be generated."
    else if includes (units "failed to create apply job") normalized
    then say ko "apply 작업을 생성하지 못했습니다." "The apply job could not be created."
    else if includes (units "failed to create plan") normalized
    then say ko "계획 작업을 생성하지 못했습니다." "The plan job could not be created."
    else if says_conflict normalized
    then say ko "다른 작업이 먼저 반영되어 현재 화면 정보가 오래되었습니다. 새로고침 후 다시 시도하세요."
        "Another change was applied first, so this view is stale. Refresh and retry."
    else message

unfoldable pub summarize_operator_error : Bool → Option Text → Text
summarize_operator_error ko none =
    say ko "예상하지 못한 플랫폼 오류가 발생했습니다." "An unexpected platform error occurred."
summarize_operator_error ko (some message) =
    if truthy message
    then operator_message ko (to_lower message) message
    else say ko "예상하지 못한 플랫폼 오류가 발생했습니다." "An unexpected platform error occurred."

unfoldable pub error_looks_raw : Option Text → Bool
error_looks_raw none = false
error_looks_raw (some message) =
    truthy message
    && (includes (units "/") message
        || includes (units "{") message
        || includes (units "no such file or directory") message)
