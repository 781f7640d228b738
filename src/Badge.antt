-- ===== src/Badge.antt =====
-- web/src/components/StatusBadge.tsx: the label and the class of a status. `labelMap[…]` is a lookup
-- among its own entries; a status with the name of a property of every object is left aside.
use infra_orch_studio.Common.{
  Bool, Option, none, some, List, [], ◌∷◌, Text, units, text_eq, truthy, any, if◌then◌else◌,
}
use infra_orch_studio.Js.Text.{to_lower}
use infra_orch_studio.Js.Object.{Object, text_key, get}
use infra_orch_studio.UiCopy.{say}

unfoldable pub label_map : Object Text Text
label_map =
    (units "queued", units "대기")
    ∷ (units "pending", units "보류")
    ∷ (units "pending_approval", units "승인 대기")
    ∷ (units "not_requested", units "미요청")
    ∷ (units "running", units "실행 중")
    ∷ (units "planning", units "계획 중")
    ∷ (units "applying", units "적용 중")
    ∷ (units "approved", units "승인됨")
    ∷ (units "destroying", units "삭제 중")
    ∷ (units "done", units "완료")
    ∷ (units "active", units "활성")
    ∷ (units "destroyed", units "삭제됨")
    ∷ (units "failed", units "실패")
    ∷ []

-- `label || status`
abbrev label_or : Option Text → Text → Text
label_or none status = status
label_or (some label) status = if truthy label then label else status

unfoldable pub format_status_label : Option Text → Bool → Text
format_status_label none ko = say ko "알 수 없음" "unknown"
format_status_label (some status) ko =
    if truthy status
    then if ko then label_or (get (to_lower status) label_map) status else status
    else say ko "알 수 없음" "unknown"

-- `names.includes(status)`
abbrev pub one_of : List Text → Text → Bool
one_of names status = any (λ name. text_eq name status) names

abbrev pub queued_names : List Text
queued_names =
    units "queued" ∷ units "pending" ∷ units "pending_approval" ∷ units "not_requested" ∷ []

abbrev pub running_names : List Text
running_names =
    units "running"
    ∷ units "planning"
    ∷ units "applying"
    ∷ units "approved"
    ∷ units "destroying"
    ∷ []

abbrev pub done_names : List Text
done_names = units "done" ∷ units "active" ∷ units "destroyed" ∷ []

unfoldable pub badge_class : Text → Text
badge_class status =
    let normalized = to_lower status in
    if one_of queued_names normalized
    then units "badge badge-queued"
    else if one_of running_names normalized
    then units "badge badge-running"
    else if one_of done_names normalized
    then units "badge badge-done"
    else if text_eq normalized (units "failed")
    then units "badge badge-failed"
    else units "badge badge-muted"
