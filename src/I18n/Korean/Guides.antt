-- ===== src/I18n/Korean/Guides.antt =====
-- The Korean wording of web/src/i18n.tsx, of the titles and of the guide.
use infra_orch_studio.Common.{[], ◌∷◌, String}
use infra_orch_studio.Shell.{RouteKey}
use infra_orch_studio.I18n.{PageGuide, GuideCopy}

unfoldable pub route_titles : RouteKey → String
route_titles RouteKey.dashboard = "대시보드"
route_titles RouteKey.guided_start = "가이드 시작"
route_titles RouteKey.environments = "환경"
route_titles RouteKey.create = "환경 생성"
route_titles RouteKey.environment_detail = "환경 상세"
route_titles RouteKey.review = "플랜 검토"
route_titles RouteKey.approval = "승인 제어"
route_titles RouteKey.jobs = "실행 이력"
route_titles RouteKey.job_detail = "실행 상세"
route_titles RouteKey.templates = "템플릿"
route_titles RouteKey.audit = "감사 로그"
route_titles RouteKey.users = "사용자 관리"

unfoldable pub pages : RouteKey → PageGuide
pages RouteKey.dashboard = record {
  summary = "승인 대기, 장애, 최근 변경을 가장 먼저 확인하는 시작 화면입니다.";
  items = "승인 대기 패널에서 막힌 변경을 엽니다." ∷ "장애 패널에서 실패한 환경으로 이동합니다." ∷ "최근 이력 표에서 상세 화면으로 진입합니다." ∷ [];
}
pages RouteKey.guided_start = record {
  summary = "한 사이클을 하나의 진입점에서 낮은 복잡도로 시작할 때 사용하는 화면입니다.";
  items =
      "Create, Review, Approval, Result를 순서대로 봅니다." ∷ "가능하면 라이브 개요를 사용합니다."
      ∷ "실행이 필요할 때만 연결된 화면으로 이동합니다." ∷ [];
}
pages RouteKey.environments = record {
  summary = "생명주기 상태를 좁히고 적절한 상세, 검토, 승인 화면으로 이동합니다.";
  items =
      "환경명, 테넌트, 소유자, 상태로 검색합니다." ∷ "빠른 생성은 운영자가 바로 플랜을 요청할 때만 사용합니다."
      ∷ "행의 다음 단계 링크로 알맞은 화면으로 바로 이동합니다." ∷ [];
}
pages RouteKey.create = record {
  summary = "단계별 입력을 마치고 마지막 검토에서 영향도를 확인한 뒤 환경을 생성합니다.";
  items =
      "테넌트, 이름, 네트워크, 인스턴스, 보안 그룹을 순서대로 검증합니다." ∷ "잠시 멈출 경우 초안을 저장합니다."
      ∷ "마지막 검토에서 blast radius를 확인한 뒤 첫 플랜을 큐잉합니다." ∷ [];
}
pages RouteKey.environment_detail = record {
  summary = "환경을 1급 운영 객체로 보고, 필요한 때만 더 깊은 편집과 제어를 엽니다.";
  items =
      "상단 요약과 워크플로로 현재 상태를 파악합니다." ∷ "새 플랜이 필요할 때만 원하는 상태 편집기를 엽니다."
      ∷ "최근 작업, 출력값, 감사 이력을 근거로 판단합니다." ∷ [];
}
pages RouteKey.review = record {
  summary = "적용 전에 리스크와 영향도를 확인하는 화면입니다.";
  items = "리뷰 신호를 먼저 읽습니다." ∷ "승인 사유를 남깁니다." ∷ "플랜을 이해한 뒤에만 승인 제어 화면으로 이동합니다." ∷ [];
}
pages RouteKey.approval = record {
  summary = "승인, 적용, 재시도, 삭제 같은 위험 작업을 안전하게 실행하는 화면입니다.";
  items = "적용 전에 승인을 확인합니다." ∷ "삭제는 이름 확인을 반드시 거칩니다." ∷ "감사 로그에 남을 코멘트는 구체적으로 작성합니다." ∷ [];
}
pages RouteKey.jobs = record {
  summary = "로우 레벨 실행 기록이나 특정 러너 작업을 직접 볼 때 사용하는 화면입니다.";
  items =
      "생명주기 작업은 환경 화면을 우선 사용합니다." ∷ "레거시 폼은 운영자 테스트 용도로만 사용합니다." ∷ "로그와 경로가 필요하면 실행 상세를 엽니다." ∷ [];
}
pages RouteKey.job_detail = record {
  summary = "하나의 실행 기록, 연결된 경로, 구조화된 출력값을 점검하는 화면입니다.";
  items =
      "연결된 환경과 원본 작업을 먼저 확인합니다." ∷ "재시도 전 로그와 산출물을 검토합니다." ∷ "환경 단위 작업이면 다시 검토/승인 화면으로 돌아갑니다." ∷ [];
}
pages RouteKey.templates = record {
  summary = "서버가 실제로 읽고 있는 템플릿과 모듈을 확인하는 화면입니다.";
  items =
      "생성 또는 수정 플랜 전에 환경 세트를 확인합니다." ∷ "템플릿 변경 후 검증을 실행합니다."
      ∷ "경로는 보조 증거로 보고, 주된 정보는 설명과 검증 상태로 봅니다." ∷ [];
}
pages RouteKey.audit = record {
  summary = "여러 환경에 걸친 승인, 적용, 재시도, 삭제 이력을 복원하는 화면입니다.";
  items =
      "승인, 변경, 삭제, 실패 필터를 사용합니다." ∷ "더 깊은 맥락이 필요하면 연결된 환경 상세로 이동합니다."
      ∷ "메타데이터는 사람이 읽는 이벤트 설명 다음에 확인합니다." ∷ [];
}
pages RouteKey.users = record {
  summary = "공개 가입이 꺼진 환경에서 관리자 주도로 계정을 여는 화면입니다.";
  items =
      "반드시 관리자 세션에서만 사용합니다." ∷ "관리자 권한 부여는 꼭 필요한 경우에만 사용합니다." ∷ "생성 후 최근 이력에서 감사 흔적을 확인합니다." ∷ [];
}

unfoldable pub guide_copy : GuideCopy
guide_copy = record {
  title = "운영 가이드";
  cycle_title = "한 사이클 가이드";
  cycle_steps =
      "환경 중심 화면에서 원하는 상태를 생성하거나 수정합니다." ∷ "플랜 검토 화면에서 영향도와 리스크를 확인한 뒤 승인 여부를 결정합니다."
      ∷ "승인을 기록한 뒤 보호된 제어 화면에서 적용 또는 삭제를 실행합니다." ∷ "실행이 끝나면 산출물, 출력값, 감사 로그로 결과를 검토합니다." ∷ [];
  page_title = "현재 페이지";
  pages = pages;
}
