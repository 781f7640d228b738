-- ===== src/Server/World/Approvals/Handed.antt =====
-- What a handler hands over is covered by the log and the event that it adds.
use infra_orch_studio.Common.{
  ℕ, Bool, true, false, not, Option, none, some, List, ◌∷◌, String, Text, str_eq, inr, ◌≡◌, refl,
  sym, subst, arith, eq_iff,
}
use infra_orch_studio.Server.Domain.{User, Environment, Job, AuditEvent}
use infra_orch_studio.Server.Changes.{Stamp, new_audit_event, approved}
use infra_orch_studio.Server.Handlers.{
  update, Body, CreateRequest, PlanRequest, ApproveRequest, DestroyRequest, Precondition,
  create_environment, plan_environment, approve_environment, apply_environment, retry_environment,
  destroy_environment,
}
use infra_orch_studio.Server.Ensures.{
  Ensures, handed, Ensures-refuse_if, Ensures-pass, Ensures-loaded, Ensures-or_bad_request,
  Ensures-decoded, Ensures-decoded_or,
}
use infra_orch_studio.Server.World.{Request, handle, plan, approve, apply, retry, destroy}
use infra_orch_studio.Server.World.Approvals.{
  is_approval, approval_logged, IsCovered, IsLicensed, IsLicensedWrite,
}

-- A new attempt is not approved, and its plan applies nothing.
not_approved : str_eq "not_requested" "approved" ≡ false
not_approved = refl

not_apply : str_eq "tofu.plan" "tofu.apply" ≡ false
not_apply = refl

same_text : (t : String) → str_eq t t ≡ true
same_text t = (eq_iff t t).1 refl

true_of_not : (b : Bool) → not b ≡ false → b ≡ true
true_of_not true h = refl
true_of_not false h = cc

module _ (audits : List AuditEvent) where
  handed_plan :
      {env : Environment} {job : Job} {audit : AuditEvent}
      → str_eq env.approval_status "approved" ≡ false
      → str_eq job.kind "tofu.apply" ≡ false
      → Ensures (IsLicensedWrite audits) (inr (update env (some job) audit))
  handed_plan a k = handed _ (λ p. cc, λ p g. cc)

  handed_job :
      {env : Environment} {job : Job} {audit : AuditEvent}
      → IsCovered (audit ∷ audits) env
      → IsLicensed (audit ∷ audits) job
      → Ensures (IsLicensedWrite audits) (inr (update env (some job) audit))
  handed_job c l = handed _ (c, l)

  handed_alone :
      {env : Environment} {audit : AuditEvent}
      → IsCovered (audit ∷ audits) env
      → Ensures (IsLicensedWrite audits) (inr (update env none audit))
  handed_alone c = handed _ c

later :
    (audits : List AuditEvent) (event : AuditEvent) (environment_id plan_id : String)
    → approval_logged audits environment_id plan_id ≡ true
    → approval_logged (event ∷ audits) environment_id plan_id ≡ true
later audits event e p h = ground (arith, h)

module _ (show : ℕ → Text) (stamp : Stamp) (user : User) (env : Environment)
    (audits : List AuditEvent) (covered : IsCovered audits env) where
  plan_environment-IsLicensed :
      (req : PlanRequest)
      → Ensures (IsLicensedWrite audits) (plan_environment show stamp user req env)
  unfolding plan_environment
  plan_environment-IsLicensed req = Ensures-or_bad_request _ _ λ spec _.
      Ensures-pass _ _ λ _. Ensures-pass _ _ λ _. handed_plan audits not_approved not_apply

  approve_environment-IsLicensed :
      (jobs : String → Option Job) (body : Body ApproveRequest)
      → Ensures (IsLicensedWrite audits) (approve_environment stamp jobs user body env)
  unfolding approve_environment is_approval approved new_audit_event
  approve_environment-IsLicensed jobs body = Ensures-refuse_if _ _ _ λ _. Ensures-pass _ _ λ _.
      Ensures-loaded _ _ _ λ job _. Ensures-refuse_if _ _ _ λ _. Ensures-decoded _ _ λ req.
        Ensures-pass _ _
          λ _. handed_alone audits (λ _. rw (same_text env.id, same_text env.last_plan_job_id) refl)

  apply_environment-IsLicensed :
      (jobs : String → Option Job) (body : Body Precondition)
      → ((id : String) (job : Job) → jobs id ≡ some job → job.id ≡ id)
      → Ensures (IsLicensedWrite audits) (apply_environment show stamp jobs user body env)
  unfolding apply_environment
  apply_environment-IsLicensed jobs body ids = Ensures-refuse_if _ _ _ λ approved_now.
      Ensures-decoded_or _ _ _ λ expected. Ensures-pass _ _ λ _. Ensures-pass _ _ λ _.
        Ensures-or_bad_request _ _ λ spec _. Ensures-loaded _ _ _ λ job read.
          Ensures-refuse_if _ _ _ λ _.
            handed_job audits (λ a. later audits _ env.id env.last_plan_job_id (covered a))
              (λ _ _. later audits _ env.id job.id (
                subst (λ p. approval_logged audits env.id p ≡ true)
                  (sym (ids env.last_plan_job_id job read)) (covered (true_of_not _ approved_now))))

  retry_environment-IsLicensed :
      (jobs : String → Option Job) (body : Body Precondition)
      → ((id : String) (job : Job) → jobs id ≡ some job → IsLicensed audits job)
      → Ensures (IsLicensedWrite audits) (retry_environment stamp jobs user body env)
  unfolding retry_environment
  retry_environment-IsLicensed jobs body licensed = Ensures-refuse_if _ _ _ λ _.
      Ensures-decoded_or _ _ _ λ expected. Ensures-pass _ _ λ _. Ensures-loaded _ _ _ λ job read.
        Ensures-refuse_if _ _ _ λ _. Ensures-refuse_if _ _ _ λ _. Ensures-pass _ _ λ _.
          handed_job audits (λ a. cc)
            (λ k g. later audits _ job.environment_id job.source_job_id (licensed _ job read k g))

  destroy_environment-IsLicensed :
      (body : Body DestroyRequest)
      → Ensures (IsLicensedWrite audits) (destroy_environment stamp user body env)
  unfolding destroy_environment
  destroy_environment-IsLicensed body = Ensures-decoded _ _ λ req.
      Ensures-refuse_if _ _ _
        λ _. Ensures-pass _ _ λ _. Ensures-pass _ _ λ _. handed_plan audits not_approved not_apply

  pub handle-IsLicensed :
      (jobs : String → Option Job) (req : Request)
      → ((id : String) (job : Job) → jobs id ≡ some job → job.id ≡ id)
      → ((id : String) (job : Job) → jobs id ≡ some job → IsLicensed audits job)
      → Ensures (IsLicensedWrite audits) (handle show stamp jobs user req env)
  unfolding handle
  handle-IsLicensed jobs (plan req) ids licensed = plan_environment-IsLicensed req
  handle-IsLicensed jobs (approve body) ids licensed = approve_environment-IsLicensed jobs body
  handle-IsLicensed jobs (apply body) ids licensed = apply_environment-IsLicensed jobs body ids
  handle-IsLicensed jobs (retry body) ids licensed = retry_environment-IsLicensed jobs body licensed
  handle-IsLicensed jobs (destroy body) ids licensed = destroy_environment-IsLicensed body

pub create_environment-IsLicensed :
    (show : ℕ → Text) (stamp : Stamp) (user : User) (audits : List AuditEvent)
    (body : Body CreateRequest)
    → Ensures (IsLicensedWrite audits) (create_environment show stamp user body)
unfolding create_environment
create_environment-IsLicensed show stamp user audits body =
    Ensures-decoded _ _ λ req. Ensures-or_bad_request _ _ λ spec _. handed _ (λ p. cc, λ p g. cc)
