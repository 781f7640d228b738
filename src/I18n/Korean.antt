-- ===== src/I18n/Korean.antt =====
-- The Korean wording of web/src/i18n.tsx.
pub mod Guides
pub mod Work
use infra_orch_studio.I18n.{
  NavCopy, ShellCopy, LoginCopy, DashboardCopy, EnvironmentsCopy, JobDetailCopy, TemplatesCopy,
  AuditCopy, UsersCopy, CopyShape,
}
use infra_orch_studio.I18n.Korean.Guides.{route_titles, guide_copy}
use infra_orch_studio.I18n.Korean.Work.{create_copy, review_copy, approval_copy, detail_copy}

abbrev pub nav : NavCopy
nav = record {
  dashboard = "대시보드";
  guided_start = "가이드 시작";
  environments = "환경";
  create = "생성 흐름";
  jobs = "실행 이력";
  templates = "템플릿";
  audit = "감사 로그";
  users = "사용자";
}

unfoldable pub shell_copy : ShellCopy
shell_copy = record {
  brand_title = "인프라 오케스트레이션";
  brand_subtitle = "환경 운영 콘솔";
  workflow_title = "계획 -> 승인 -> 적용 -> 결과";
  workflow_hint = "항상 환경 화면에서 시작하고, 필요할 때만 실행 상세로 내려가세요.";
  nav = nav;
  logout = "로그아웃";
  topbar_kicker = "환경 운영";
  route_titles = route_titles;
}

unfoldable pub login_copy : LoginCopy
login_copy = record {
  title = "인프라 오케스트레이션 스튜디오";
  subtitle = "하나의 콘솔에서 플랜, 승인, 환경 변경을 운영합니다.";
  helper = "세션 인증은 httpOnly 쿠키를 사용합니다. 비밀번호는 최소 8자 이상이어야 합니다.";
  login = "로그인";
  signup = "가입";
  create_account = "계정 만들기";
  email = "이메일";
  password = "비밀번호";
  api_base = "API 주소";
}

unfoldable pub dashboard_copy : DashboardCopy
dashboard_copy = record {
  kicker = "환경 개요";
  title = "환경 운영 대시보드";
  copy = "환경 상태를 먼저 보고, 필요한 경우 승인, 장애, 최근 변경으로 내려가세요.";
  viewer = "사용자";
  refresh = "새로고침";
}

unfoldable pub environments_copy : EnvironmentsCopy
environments_copy = record {
  kicker = "환경 목록";
  title = "환경 상태";
  copy = "생명주기 상태를 필터링하고, 승인 대기와 상세 제어 화면으로 이동합니다.";
  viewer = "사용자";
  refresh = "새로고침";
  open_wizard = "생성 마법사";
  quick_create = "빠른 생성";
  hide_quick_create = "빠른 생성 닫기";
}

unfoldable pub job_detail_copy : JobDetailCopy
job_detail_copy = record {
  kicker = "실행 상세";
  title = "실행 체인";
  copy = "환경 맥락에서 실행 기록을 확인합니다. 소스 계보, 산출물 경로, 실시간 로그, 다음 보호된 액션까지 한 화면에서 봅니다.";
  viewer = "사용자";
  refresh = "새로고침";
  environment = "환경";
  approval_control = "승인 제어";
  apply_plan = "플랜 적용";
  applying = "적용 중...";
  ws_connected = "연결됨";
  ws_offline = "오프라인";
}

unfoldable pub templates_copy : TemplatesCopy
templates_copy = record {
  kicker = "템플릿 관리 / 렌더러 계약";
  title = "OpenTofu 템플릿 카탈로그";
  copy = "플랜을 큐잉하기 전에 현재 서버에서 실제로 보이는 환경 세트와 모듈을 확인합니다.";
  refresh = "새로고침";
  validate_selected = "선택 항목 검증";
  validating = "검증 중...";
}

unfoldable pub audit_copy : AuditCopy
audit_copy = record {
  kicker = "감사 콘솔 / 환경 이력";
  title = "환경 감사 타임라인";
  copy = "전용 환경 감사 피드에서 승인, 적용, 재시도, 삭제 이력을 검토합니다.";
  viewer = "사용자";
  refresh = "새로고침";
}

unfoldable pub users_copy : UsersCopy
users_copy = record {
  kicker = "관리자 온보딩 / 접근 제어";
  title = "사용자 프로비저닝";
  copy = "공개 가입을 끈 뒤 관리자 세션에서 계정을 생성하고 최근 온보딩 이력을 검토합니다.";
  refresh = "새로고침";
  current_users = "현재 사용자";
  create_user = "사용자 생성";
  creating = "사용자 생성 중...";
  email = "이메일";
  password = "비밀번호";
  admin = "관리자 권한";
  recent_provisioning = "최근 계정 생성 이력";
  admin_only = "이 페이지에서 사용자를 생성할 수 있는 권한은 관리자에게만 있습니다.";
  no_users = "등록된 관리형 사용자가 아직 없습니다.";
  no_provisioning = "아직 계정 생성 이력이 없습니다.";
  role_admin = "관리자";
  role_user = "사용자";
  created_at = "생성 시각";
  status_active = "활성";
  status_disabled = "비활성";
  disable = "비활성화";
  enable = "재활성화";
  enabling = "재활성화 중...";
  disabling = "비활성화 중...";
  reset_password = "비밀번호 재설정";
  resetting_password = "비밀번호 재설정 중...";
  password_for = "대상 계정";
  password_updated = "비밀번호를 갱신했습니다";
  grant_admin = "관리자 부여";
  revoke_admin = "관리자 해제";
  updating_role = "권한 변경 중...";
}

unfoldable pub korean : CopyShape
korean = record {
  shell = shell_copy;
  login = login_copy;
  dashboard = dashboard_copy;
  environments = environments_copy;
  create = create_copy;
  review = review_copy;
  approval = approval_copy;
  detail = detail_copy;
  job_detail = job_detail_copy;
  templates = templates_copy;
  audit = audit_copy;
  users = users_copy;
  guide = guide_copy;
}
