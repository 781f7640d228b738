-- ===== src/Detail/Guards.antt =====
-- The buttons of the pages against the rules of the server.
use infra_orch_studio.Common.{
  ◌≡◌, ◌↔◌, refl, true, Option, none, some, String, ◌<◌, arith, length-eq-zero_iff,
}
use infra_orch_studio.Api.{User, Environment, EnvironmentSpec}
use infra_orch_studio.UiCopy.{or_zero}
use infra_orch_studio.Server.Lifecycle
use infra_orch_studio.Validation.Wizard.{field_errors}
use infra_orch_studio.Validation.Wizard.Accepts.{IsAcceptable, field_errors-eq-nil_iff}
use infra_orch_studio.Detail.{is_admin, can_plan_update, can_retry, can_destroy, can_approve}

-- The link to the destroy control is shown exactly in the states in which the server queues a
-- destroy plan.
pub can_destroy_lem :
    (e : Environment) → can_destroy (some e) ≡ Lifecycle.can_queue_destroy e.status
unfolding can_destroy Lifecycle.can_queue_destroy Lifecycle.is_environment_busy
can_destroy_lem e = ground arith

-- The retry button is shown exactly when the server's state allows a retry and retries are left.
pub can_retry_iff :
    (e : Environment)
    → (can_retry (some e) ≡ true)
      ↔ ((Lifecycle.can_retry e.status ≡ true) × (or_zero e.retry_count < or_zero e.max_retries))
unfolding can_retry Lifecycle.can_retry
can_retry_iff e = ground arith

-- What the server approves for an admin, the page offers to approve.
pub can_approve_plan-can_approve :
    (viewer : Option User) (e : Environment)
    → is_admin viewer ≡ true
    → Lifecycle.can_approve_plan e.status e.approval_status ≡ true
    → can_approve viewer (some e) ≡ true
unfolding can_approve Lifecycle.can_approve_plan
can_approve_plan-can_approve viewer e a h = ground arith

-- With an environment and an edited spec at hand, an update plan can be queued exactly when no action
-- is busy and the edited spec is acceptable.
pub can_plan_update_iff :
    (e : Environment) (editing : EnvironmentSpec) (busy : Option String)
    → (can_plan_update (some e) (some editing) busy ≡ true) ↔ ((busy ≡ none) × IsAcceptable editing)
unfolding can_plan_update
can_plan_update_iff e editing none = (
  λ h.
      (refl, (field_errors-eq-nil_iff editing).0 ((length-eq-zero_iff (field_errors editing)).0 h)),
  λ p. (length-eq-zero_iff (field_errors editing)).1 ((field_errors-eq-nil_iff editing).1 p.1),
)
can_plan_update_iff e editing (some b) = (λ h. absurd (ground arith), λ p. absurd (ground arith))
