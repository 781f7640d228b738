-- ===== src/Server/Stranded.antt =====
-- Environments that the handlers of internal/api/environments.go and the runner leave without a way
-- on.
use infra_orch_studio.Common.{
  ℕ, true, false, Option, none, some, List, String, Text, units, given, inl, ◌≡◌, ◌≢◌, refl, sym,
  ap, ◌∙◌, arith, eq_iff,
}
use infra_orch_studio.Server.Lifecycle.{is_environment_busy, can_queue_plan, can_queue_apply}
use infra_orch_studio.Server.Go.{trim_space, trim_left}
use infra_orch_studio.Server.Validation.{GoSpec}
use infra_orch_studio.Server.Domain.{User, Environment, Job}
use infra_orch_studio.Server.Access.{validate_environment_plan_access}
use infra_orch_studio.Server.Changes.{
  Stamp, planned, destroying, new_environment_plan_job, reset_environment_attempt_state,
  bump_environment_revision,
}
use infra_orch_studio.Server.Runner.{fail_environment, is_stale, prepare_destroy_plan_job, stop_if}
use infra_orch_studio.Server.World.Marks.{unless_stale}

-- For an environment that is neither busy nor destroyed, the handler of plans lets every operation
-- pass that is none of the three known ones, though the lifecycle rules allow no plan for it, and an
-- apply of its plan is never allowed.
pub unknown_operation_passes :
    (env : Environment) (operation : String)
    → is_environment_busy env.status ≡ false
    → env.status ≢ "destroyed"
    → given operation ≡ true
    → operation ≢ "create"
    → operation ≢ "update"
    → operation ≢ "destroy"
    → (validate_environment_plan_access env operation ≡ none)
      × (can_queue_plan env.status operation ≡ false)
      × ((status approval : String) → can_queue_apply status approval operation ≡ false)
unfolding validate_environment_plan_access can_queue_plan can_queue_apply
unknown_operation_passes env operation idle alive g c u d = (
  ground (
    arith,
    eq_iff env.status "destroyed",
    eq_iff operation "create",
    eq_iff operation "update",
    eq_iff operation "destroy",
  ),
  ground (arith, eq_iff operation "create", eq_iff operation "update"),
  λ status approval.
      ground
        (arith, eq_iff operation "create", eq_iff operation "update", eq_iff operation "destroy"),
)

failed_keeps :
    (env : Environment) (job : Job) (now : ℕ) {failed : Environment}
    → fail_environment env job now ≡ some failed
    → (failed.id ≡ env.id) × (failed.workdir ≡ env.workdir)
unfolding fail_environment
failed_keeps env job now h =
    let (_, same) = unless_stale (is_stale env job) (_) h in
    (ap (λ (x : Environment). x.id) (sym same), ap (λ (x : Environment). x.workdir) (sym same))

-- Once a plan was requested and its job has failed, a request to destroy queues a job that the
-- runner cannot prepare: the directory that was applied is no longer known.
pub failed_plan-destroy_lost :
    (join : List Text → Text) (template_name operation : String) (env failed : Environment)
    (spec : GoSpec) (plan_stamp stamp : Stamp) (job : Job) (user : User) (now later : ℕ)
    (environments : String → Option Environment)
    → fail_environment (planned env spec operation plan_stamp) job now ≡ some failed
    → environments env.id ≡ some (destroying failed stamp)
    → given env.id ≡ true
    → prepare_destroy_plan_job join template_name later environments
        (new_environment_plan_job (destroying failed stamp) "" user.email stamp)
      ≡ inl (units "destroy plan requires an existing applied workdir")
unfolding planned destroying new_environment_plan_job prepare_destroy_plan_job stop_if
    reset_environment_attempt_state bump_environment_revision trim_space trim_left
failed_plan-destroy_lost join template_name operation env failed spec plan_stamp stamp job user now
      later environments h stored g =
    let kept = failed_keeps (planned env spec operation plan_stamp) job now h in
    let named : given failed.id ≡ true = rw kept.0 g in
    let found : environments failed.id ≡ some (destroying failed stamp) =
      ap environments kept.0 ∙ stored in
    rw (named, found, kept.1) refl
