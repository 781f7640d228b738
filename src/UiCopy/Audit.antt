-- ===== src/UiCopy/Audit.antt =====
-- `displayAuditAction` and `summarizeAuditMessage` of web/src/utils/uiCopy.ts. The lookup is among the entries of the table; an
-- action with the name of a property of every object is left aside.
use infra_orch_studio.Common.{
  Bool, Option, none, some, List, [], ◌∷◌, String, Text, units, truthy, if◌then◌else◌,
}
use infra_orch_studio.Js.Replace.{replace_phrase}
use infra_orch_studio.Js.Object.{Object, string_key, get}
use infra_orch_studio.UiCopy.Errors.{say}

unfoldable pub audit_actions : Bool → Object String Text
audit_actions ko =
    ("user.provisioned", say ko "사용자 계정 생성" "User account provisioned")
    ∷ ("user.disabled", say ko "사용자 비활성화" "User account disabled")
    ∷ ("user.enabled", say ko "사용자 재활성화" "User account re-enabled")
    ∷ ("user.password_reset", say ko "사용자 비밀번호 재설정" "User password reset")
    ∷ ("user.role_granted", say ko "관리자 권한 부여" "Admin role granted")
    ∷ ("user.role_revoked", say ko "관리자 권한 해제" "Admin role revoked")
    ∷ ("environment.created", say ko "환경 생성" "Environment created")
    ∷ ("environment.plan_requested", say ko "환경 계획 요청" "Environment plan requested")
    ∷ ("environment.approved", say ko "환경 승인" "Environment approved")
    ∷ ("environment.apply_requested", say ko "환경 적용 요청" "Environment apply requested")
    ∷ ("environment.destroy_requested", say ko "환경 삭제 요청" "Environment destroy requested")
    ∷ ("environment.retry_requested", say ko "환경 재시도 요청" "Environment retry requested")
    ∷ ("environment.plan_failed", say ko "환경 계획 실패" "Environment plan failed")
    ∷ ("environment.apply_failed", say ko "환경 적용 실패" "Environment apply failed")
    ∷ ("environment.apply_succeeded", say ko "환경 적용 성공" "Environment apply succeeded")
    ∷ ("environment.destroy_succeeded", say ko "환경 삭제 성공" "Environment destroy succeeded")
    ∷ ("job.failed", say ko "실행 실패" "Execution failed")
    ∷ ("job.succeeded", say ko "실행 성공" "Execution succeeded")
    ∷ ("job.failed_conflict", say ko "실행 실패(충돌 반영)" "Execution failed (conflict)")
    ∷ ("job.succeeded_conflict", say ko "실행 성공(충돌 반영)" "Execution succeeded (conflict)")
    ∷ ("job.failed_ignored", say ko "실행 실패(구버전 무시)" "Execution failed (stale ignored)")
    ∷ ("job.succeeded_ignored", say ko "실행 성공(구버전 무시)" "Execution succeeded (stale ignored)")
    ∷ []

-- `label || action`
abbrev label_or : Option Text → String → Text
label_or none action = units action
label_or (some label) action = if truthy label then label else units action

unfoldable pub display_audit_action : String → Bool → Text
display_audit_action action ko = label_or (get action (audit_actions ko)) action

-- The phrases that `summarizeAuditMessage` translates, in their order.
unfoldable pub audit_phrases : List (String × String)
audit_phrases =
    ("Plan approved for environment ", "환경 계획 승인: ")
    ∷ ("Plan requested for environment ", "환경 계획 요청: ")
    ∷ ("environment plan queued", "환경 계획이 큐에 등록되었습니다")
    ∷ ("Apply requested for environment ", "환경 적용 요청: ")
    ∷ ("Destroy requested for environment ", "환경 삭제 요청: ")
    ∷ ("Retry requested for environment ", "환경 재시도 요청: ")
    ∷ ("Plan failed for environment ", "환경 계획 실패: ")
    ∷ ("Apply failed for environment ", "환경 적용 실패: ")
    ∷ ("Apply succeeded for environment ", "환경 적용 성공: ")
    ∷ ("Destroy succeeded for environment ", "환경 삭제 성공: ")
    ∷ ("environment created and initial plan queued", "환경이 생성되었고 초기 계획이 큐에 등록되었습니다")
    ∷ ("runner updated environment state from job", "러너가 작업 결과로 환경 상태를 갱신했습니다")
    ∷ ("runner marked environment failed", "러너가 환경을 실패 상태로 기록했습니다")
    ∷ []

unfoldable pub translate_phrases : List (String × String) → Text → Text
translate_phrases [] message = message
translate_phrases ((phrase, korean) ∷ rest) message =
    translate_phrases rest (replace_phrase 0 (units phrase) (units korean) message)

abbrev shown_message : Bool → Text → Option Text
shown_message ko message =
    if ko then some (translate_phrases audit_phrases message) else some message

unfoldable pub summarize_audit_message : Option Text → Bool → Option Text
summarize_audit_message none ko = none
summarize_audit_message (some message) ko =
    if truthy message then shown_message ko message else none
