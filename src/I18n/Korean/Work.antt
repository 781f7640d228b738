-- ===== src/I18n/Korean/Work.antt =====
-- The Korean wording of web/src/i18n.tsx, on creating, reviewing, approving and changing an environment.
use infra_orch_studio.Common.{[], ◌∷◌}
use infra_orch_studio.I18n.{RequestChatCopy, CreateCopy, ReviewCopy, ApprovalCopy, DetailCopy}

abbrev pub request_chat : RequestChatCopy
request_chat = record {
  kicker = "요청 채팅 (베타)";
  title = "구조화된 요청 초안 생성";
  draft_only = "초안 전용";
  copy = "자연어로 원하는 환경을 설명하면 초안만 생성합니다. 이후에도 반드시 플랜 검토와 승인을 거칩니다.";
  prompt_label = "요청 프롬프트";
  prompt_placeholder =
      "예시: finops 테넌트용 payments-api 스테이징 환경을 만들고, ubuntu 인스턴스 2대와 medium flavor, web/db 보안 그룹, 네트워크 10.44.0.0/24, 서브넷 10.44.0.0/26을 사용해줘.";
  generate = "요청 초안 생성";
  generating = "초안 생성 중...";
  use_draft = "초안을 마법사에 적용";
  assumptions = "가정 사항";
  warnings = "주의 사항";
  next_step = "다음 단계";
  no_warnings = "이 프롬프트에서는 추가 주의 사항이 생성되지 않았습니다.";
}

unfoldable pub create_copy : CreateCopy
create_copy = record {
  kicker = "환경 설정 / 07단계";
  title = "환경 생성 흐름";
  copy = "원하는 상태를 단계별로 입력하고, 필요하면 초안을 저장한 뒤 첫 플랜을 큐잉하고 검토 단계로 이동합니다.";
  save_draft = "초안 저장";
  saving_draft = "초안 저장 중...";
  exit_wizard = "마법사 나가기";
  steps_title = "진행 단계";
  current_step = "현재 단계";
  resolve_before_continue = "다음 단계로 가기 전에 해결하세요";
  back = "이전";
  continue = "계속";
  queue_initial_plan = "플랜 검토로 이동";
  queueing_initial_plan = "초기 플랜 큐잉 중...";
  refresh_review = "검토 갱신 중...";
  fix_review_errors = "검토 오류 해결 필요";
  step_labels = "템플릿 / 직접 입력" ∷ "테넌트" ∷ "이름" ∷ "네트워크 / 서브넷" ∷ "인스턴스" ∷ "보안 참조" ∷ "검증 + 검토" ∷ [];
  request_chat = request_chat;
}

unfoldable pub review_copy : ReviewCopy
review_copy = record {
  kicker = "플랜 검토";
  title = "변경 영향 검토";
  copy = "최신 환경 플랜과 리스크 신호를 확인하고, 영향도가 수용 가능한 경우에만 승인 게이트를 해제합니다.";
  refresh = "새로고침";
  approval_control = "승인 제어";
  environment_detail = "환경 상세";
  approve = "승인";
  approving = "승인 중...";
  apply = "적용";
  applying = "적용 중...";
  open_guarded_control = "보호된 제어 열기";
  ack = "승인 전에 모든 고위험 변경과 경고를 확인했습니다.";
  approval_comment = "승인 코멘트";
  approval_placeholder = "승인 근거, CAB 참조, 운영 메모";
}

unfoldable pub approval_copy : ApprovalCopy
approval_copy = record {
  kicker = "승인 제어";
  title = "보호된 운영 워크플로";
  copy = "승인, 적용, 수정, 삭제 전에 명시적 체크포인트를 거칩니다. 기존 환경 생명주기 API 위에 운영자 안전 장치를 추가한 화면입니다.";
  refresh = "새로고침";
  plan_review = "플랜 검토";
  environment_detail = "환경 상세";
  approval_comment = "승인 코멘트";
  approval_placeholder = "이 플랜을 안전하게 승인할 수 있는 이유";
  approve_request = "요청 승인";
  approving = "승인 중...";
  queue_update = "보호된 업데이트 큐잉";
  apply_approved = "승인된 플랜 적용";
  applying = "적용 중...";
  admin_approve_only = "이 승인 게이트를 해제하려면 관리자 권한이 필요합니다.";
  admin_apply_only = "승인 이후 apply 큐잉은 관리자만 실행할 수 있습니다.";
  typed_confirmation = "이름 확인 입력";
  destroy_comment = "삭제 코멘트";
  destroy_placeholder = "삭제 사유, 장애 번호, 변경 요청 번호";
  queue_destroy = "삭제 플랜 큐잉";
  queueing_destroy = "삭제 큐잉 중...";
  destroy_disabled = "삭제 비활성";
  show_audit_timeline = "감사 타임라인 열기";
  hide_audit_timeline = "감사 타임라인 닫기";
}

unfoldable pub detail_copy : DetailCopy
detail_copy = record {
  kicker = "상세";
  copy = "생명주기 상태를 추적하고, 보호된 변경을 큐잉하며, 플랜과 결과, 감사 근거를 한 화면에서 확인합니다.";
  refresh = "새로고침";
  open_review = "검토 열기";
  approval_control = "승인 제어";
  queue_update = "업데이트 플랜 큐잉";
  queueing = "큐잉 중...";
  approve = "승인";
  approving = "승인 중...";
  apply_approved = "승인된 플랜 적용";
  applying = "적용 중...";
  open_destroy_control = "삭제 제어 열기";
  retry = "실패 단계 재시도";
  retrying = "재시도 중...";
}
