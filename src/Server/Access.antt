-- ===== src/Server/Access.antt =====
-- The refusals of the handlers of internal/api/environments.go, and its checks whether a request is
-- allowed for an environment.
use infra_orch_studio.Common.{
  ℕ, Bool, not, ◌&&◌, ◌||◌, Option, none, some, String, Text, units, given, str_eq, inl, inr, ◌⊎◌,
  if◌then◌else◌,
}
use infra_orch_studio.Server.Validation.{Checked}
use infra_orch_studio.Server.Lifecycle.{
  is_environment_busy, can_queue_plan, can_approve_plan, can_queue_apply, can_queue_destroy,
  can_retry,
}
use infra_orch_studio.Server.Domain.{User, Environment, Job}

-- The status and the message of an answer that ends a handler.
abbrev pub Refusal : Type 0
Refusal = ℕ × Text

abbrev pub refusal : ℕ → String → Refusal
refusal code message = (code, units message)

abbrev pub Answer {ℓ} : Type ℓ → Type ℓ
Answer A = Refusal ⊎ A

-- `if test { writeError(…); return }`
unfoldable pub refuse_if {ℓ} : {A : Type ℓ} → Bool → Refusal → Answer A → Answer A
refuse_if test r rest = if test then inl r else rest

-- `if code, msg := …; code != 0 { writeError(…); return }`
unfoldable pub pass {ℓ} : {A : Type ℓ} → Option Refusal → Answer A → Answer A
pass none rest = rest
pass (some r) rest = inl r

unfoldable pub or_bad_request {ℓ κ} :
    {A : Type ℓ} {B : Type κ} → Checked A → (A → Answer B) → Answer B
or_bad_request (inl message) next = inl (400, message)
or_bad_request (inr a) next = next a

unfoldable pub default_environment_plan_operation : Environment → String
default_environment_plan_operation env =
    if str_eq env.status "draft" || str_eq env.status "destroyed" then "create" else "update"

unfoldable pub validate_environment_plan_access : Environment → String → Option Refusal
validate_environment_plan_access env requested =
    let operation = if given requested then requested else default_environment_plan_operation env in
    if str_eq operation "destroy"
    then some (refusal 400 "destroy plans must use POST /api/environments/{id}/destroy")
    else if is_environment_busy env.status
    then some (refusal 400 "environment is busy with another operation")
    else if str_eq env.status "destroyed" && not (str_eq operation "create")
    then some (refusal 400 "destroyed environment must queue a create plan")
    else if str_eq operation "create" && not (can_queue_plan env.status operation)
    then some (refusal 400 "create plan is only allowed for draft or destroyed environments")
    else if str_eq operation "update" && not (can_queue_plan env.status operation)
    then some (refusal 400 "update plan is not allowed for draft or destroyed environments")
    else none

unfoldable pub validate_environment_approval_access : Environment → Option Refusal
validate_environment_approval_access env =
    if not (can_approve_plan env.status env.approval_status)
    then some (refusal 400 "environment is not awaiting approval")
    else none

unfoldable pub validate_environment_apply_access : Environment → Option Refusal
validate_environment_apply_access env =
    if not (can_queue_apply env.status env.approval_status env.operation)
    then some (refusal 400 "environment is not approved for apply")
    else none

unfoldable pub validate_environment_retry_access : User → Environment → Job → Option Refusal
validate_environment_retry_access user env last_job =
    if str_eq last_job.kind "tofu.apply" && not user.is_admin
    then some (refusal 403 "admin access required")
    else if str_eq last_job.operation "destroy" && not user.is_admin
    then some (refusal 403 "admin access required")
    else if str_eq env.status "destroyed"
    then some (refusal 400 "destroyed environment cannot retry jobs")
    else if not (can_retry env.status)
    then some (refusal 400 "environment is not in failed state for retry")
    else none

unfoldable pub validate_environment_destroy_access : Environment → Option Refusal
validate_environment_destroy_access env =
    if not (can_queue_destroy env.status)
    then (if str_eq env.status "destroyed"
        then some (refusal 400 "environment is already destroyed")
        else some (refusal 400 "environment is busy with another operation"))
    else none
