-- ===== src/Server/World/Approvals/Carried.antt =====
-- What the runner makes of a covered environment or of a licensed job.
use infra_orch_studio.Common.{
  ℕ, Option, none, some, List, Text, str_eq, inl, inr, ◌≡◌, refl, subst, Bool-cases,
}
use infra_orch_studio.Server.Domain.{Environment, Job, AuditEvent}
use infra_orch_studio.Server.Changes.{Stamp}
use infra_orch_studio.Server.Runner.{
  claimed_job, with_plan_path, done_job, failed_job, succeed_environment, fail_environment,
  after_job, is_stale,
}
use infra_orch_studio.Server.World.{settled}
use infra_orch_studio.Server.World.Marks.{unless_stale}
use infra_orch_studio.Server.World.Approvals.{IsCovered, IsLicensed, IsLicensedRun}

-- The runner approves nothing.
after_job-IsCovered :
    (audits : List AuditEvent) (job : Job) (env : Environment)
    → IsCovered audits env
    → IsCovered audits (after_job job env)
after_job-IsCovered audits job env c = elim (Bool-cases (str_eq job.kind "tofu.plan")) [
  | inl p ↦ rw p (λ a. cc)
  | inr p ↦ elim (Bool-cases (str_eq job.kind "tofu.apply")) [
    | inl a ↦ rw (p, a) c
    | inr a ↦ rw (p, a) c
  ]
]

pub succeed_environment-IsCovered :
    (audits : List AuditEvent) (env : Environment) (job : Job) (now : ℕ) {env' : Environment}
    → IsCovered audits env
    → succeed_environment env job now ≡ some env'
    → IsCovered audits env'
unfolding succeed_environment
succeed_environment-IsCovered audits env job now c h =
    let (_, same) = unless_stale (is_stale env job) _ h in
    subst (IsCovered audits) same (after_job-IsCovered audits job _ c)

pub fail_environment-IsCovered :
    (audits : List AuditEvent) (env : Environment) (job : Job) (now : ℕ) {env' : Environment}
    → IsCovered audits env
    → fail_environment env job now ≡ some env'
    → IsCovered audits env'
unfolding fail_environment
fail_environment-IsCovered audits env job now c h =
    let (_, same) = unless_stale (is_stale env job) _ h in subst (IsCovered audits) same c

pub settled-IsLicensed :
    (audits : List AuditEvent) (job : Job) (env : Environment) (stamp : Stamp)
    (o : Option Environment)
    → ((env' : Environment) → o ≡ some env' → IsCovered audits env')
    → IsLicensedRun audits (settled job env stamp o)
settled-IsLicensed audits job env stamp none c = tt
settled-IsLicensed audits job env stamp (some env') c = c env' refl

-- The jobs that the runner ends, and the one that it claims, apply what they did.
pub claimed_job-IsLicensed :
    (audits : List AuditEvent) (job : Job) (now : ℕ)
    → IsLicensed audits job
    → IsLicensed audits (claimed_job job now)
unfolding claimed_job
claimed_job-IsLicensed audits job now l = l

pub with_plan_path-IsLicensed :
    (audits : List AuditEvent) (job : Job) (now : ℕ)
    → IsLicensed audits job
    → IsLicensed audits (with_plan_path job now)
unfolding with_plan_path
with_plan_path-IsLicensed audits job now l = l

pub done_job-IsLicensed :
    (audits : List AuditEvent) (job : Job) (outputs : Text) (now : ℕ)
    → IsLicensed audits job
    → IsLicensed audits (done_job job outputs now)
unfolding done_job
done_job-IsLicensed audits job outputs now l = l

pub failed_job-IsLicensed :
    (audits : List AuditEvent) (job : Job) (message : Text) (now : ℕ)
    → IsLicensed audits job
    → IsLicensed audits (failed_job job message now)
unfolding failed_job
failed_job-IsLicensed audits job message now l = l
