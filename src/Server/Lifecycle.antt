-- ===== src/Server/Lifecycle.antt =====
-- internal/domain/environment_lifecycle.go: which operations the server allows in which state. The
-- string types of Go are `String`.
pub mod Busy
use infra_orch_studio.Common.{Bool, false, not, ◌&&◌, ◌||◌, String, str_eq, if◌then◌else◌}

unfoldable pub is_environment_busy : String → Bool
is_environment_busy status =
    str_eq status "planning" || str_eq status "applying" || str_eq status "destroying"

unfoldable pub can_queue_plan : String → String → Bool
can_queue_plan status operation =
    if is_environment_busy status
    then false
    else if str_eq operation "create"
    then str_eq status "draft" || str_eq status "destroyed"
    else if str_eq operation "update"
    then not (str_eq status "draft") && not (str_eq status "destroyed")
    else false

unfoldable pub can_approve_plan : String → String → Bool
can_approve_plan status approval = str_eq status "pending_approval" && str_eq approval "pending"

unfoldable pub can_queue_apply : String → String → String → Bool
can_queue_apply status approval operation =
    str_eq status "approved"
    && str_eq approval "approved"
    && (str_eq operation "create" || str_eq operation "update" || str_eq operation "destroy")

unfoldable pub can_queue_destroy : String → Bool
can_queue_destroy status = not (is_environment_busy status) && not (str_eq status "destroyed")

unfoldable pub can_retry : String → Bool
can_retry status = str_eq status "failed"
