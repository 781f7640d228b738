-- ===== src/Server/Handlers.antt =====
-- The handlers of internal/api/environments.go that change an environment. A handler is a function of
-- what it has read, the body of its request, the clock and the new identifiers, to a refusal or to
-- what it hands over to the transaction of the store. The branch for a store without transactions,
-- which the MySQL store never takes, is left out.
use infra_orch_studio.Common.{
  ℕ, not, ◌||◌, Option, none, some, [], ◌∷◌, String, Text, truthy, given, str_eq, text_eq, leb, inl,
  inr, if◌then◌else◌,
}
use infra_orch_studio.Server.Validation.{GoSpec, normalize_and_validate}
use infra_orch_studio.Server.Domain.{User, Environment, Job, name, text, AuditEvent}
use infra_orch_studio.Server.Revision.{validate_expected_revision}
use infra_orch_studio.Server.Access.{
  refusal, Answer, refuse_if, pass, or_bad_request, default_environment_plan_operation,
  validate_environment_plan_access, validate_environment_approval_access,
  validate_environment_apply_access, validate_environment_retry_access,
  validate_environment_destroy_access,
}
use infra_orch_studio.Server.Changes.{
  Stamp, new_audit_event, new_environment_plan_job, planned, approved, applying, apply_job,
  retry_job, retried, destroying,
}
use infra_orch_studio.Common.{
  ℕ, not, ◌||◌, Option, none, some, [], ◌∷◌, String, Text, truthy, given, str_eq, text_eq, leb, inl,
  inr, if◌then◌else◌,
}
use infra_orch_studio.Server.Validation.{GoSpec, normalize_and_validate}
use infra_orch_studio.Server.Revision.{validate_expected_revision}
use infra_orch_studio.Server.Domain.{User, Environment, Job, name, text, AuditEvent}

-- What a transaction of the store is given.
pub data Write : Type 0 where
  create : Environment → Job → AuditEvent → Write
  update : Environment → Option Job → AuditEvent → Write

-- The body of a request as `decodeJSON` finds it.
pub data Body {ℓ} (A : Type ℓ) : Type ℓ where
  absent : Body A
  invalid : Body A
  parsed : A → Body A

-- A body that must be valid JSON.
unfoldable pub decoded {ℓ κ} : {A : Type ℓ} {B : Type κ} → Body A → (A → Answer B) → Answer B
decoded (parsed a) next = next a
decoded _ next = inl (refusal 400 "invalid json")

-- A body that may be left out.
unfoldable pub decoded_or {ℓ κ} : {A : Type ℓ} {B : Type κ} → A → Body A → (A → Answer B) → Answer B
decoded_or default absent next = next default
decoded_or default (parsed a) next = next a
decoded_or default invalid next = inl (refusal 400 "invalid json")

-- A job that is read from the store.
unfoldable pub loaded {ℓ} : {B : Type ℓ} → Option Job → String → (Job → Answer B) → Answer B
loaded none message next = inl (refusal 500 message)
loaded (some job) message next = next job

pub record CreateRequest : Type 0 where
  pub spec : GoSpec
  pub template_name : String

-- What decoding leaves in the request, whether or not it ends with an error.
pub record PlanRequest : Type 0 where
  pub spec : Option GoSpec
  pub template_name : String
  pub operation : String
  pub expected_revision : Option ℕ

pub record ApproveRequest : Type 0 where
  pub comment : Text
  pub expected_revision : Option ℕ

pub record DestroyRequest : Type 0 where
  pub confirmation_name : Text
  pub comment : Text
  pub expected_revision : Option ℕ

-- `revisionPreconditionRequest`
abbrev pub Precondition : Type 0
Precondition = Option ℕ

-- The part of `handleEnvironments` for POST.
unfoldable pub create_environment : (ℕ → Text) → Stamp → User → Body CreateRequest → Answer Write
unfolding new_environment_plan_job new_audit_event
create_environment show stamp user body = decoded body λ req.
    or_bad_request (normalize_and_validate show req.spec) λ spec.
      let env : Environment = record {
        id = stamp.environment_id;
        name = spec.environment_name;
        status = "planning";
        operation = "create";
        approval_status = "not_requested";
        spec = spec;
        created_by_user_id = user.id;
        created_by_email = user.email;
        approved_by_user_id = "";
        approved_by_email = "";
        approved_at = none;
        last_plan_job_id = stamp.job_id;
        last_apply_job_id = "";
        last_job_id = stamp.job_id;
        last_error = [];
        retry_count = 0;
        max_retries = 3;
        workdir = [];
        plan_path = [];
        outputs_json = [];
        revision = 1;
        created_at = stamp.now;
        updated_at = stamp.now;
      } in
      let job = new_environment_plan_job env req.template_name user.email stamp in
      inr (
        create env job (
          new_audit_event user env.id "environment.created"
            "environment created and initial plan queued"
            (("job_id", name job.id) ∷ ("template_name", name job.template_name) ∷ []) stamp))

abbrev pub spec_or : Option GoSpec → GoSpec → GoSpec
spec_or none old = old
spec_or (some spec) old = spec

-- `handleEnvironmentPlan`
unfoldable pub plan_environment :
    (ℕ → Text) → Stamp → User → PlanRequest → Environment → Answer Write
unfolding planned new_environment_plan_job new_audit_event
plan_environment show stamp user req env =
    or_bad_request (normalize_and_validate show (spec_or req.spec env.spec)) λ spec.
      let operation =
        if given req.operation then req.operation else default_environment_plan_operation env in
      pass (validate_environment_plan_access (record env { spec = spec }) operation) (
        pass (validate_expected_revision env.revision req.expected_revision) (
          let env' = planned env spec operation stamp in
          let job = new_environment_plan_job env' req.template_name user.email stamp in
          inr (
            update env' (some job) (
              new_audit_event user env.id "environment.plan_requested" "environment plan queued"
                (("job_id", name job.id)
                  ∷ ("operation", name operation)
                  ∷ ("template_name", name job.template_name)
                  ∷ [])
                stamp))))

-- `handleEnvironmentApprove`, with the reading of a job as a parameter.
unfoldable pub approve_environment :
    Stamp → (String → Option Job) → User → Body ApproveRequest → Environment → Answer Write
unfolding approved new_audit_event
approve_environment stamp jobs user body env =
    refuse_if (not (given env.last_plan_job_id)) (refusal 400 "environment has no plan to approve")
      (pass (validate_environment_approval_access env) (
        loaded (jobs env.last_plan_job_id) "load plan job failed" λ job.
          refuse_if (not (str_eq job.status "done"))
            (refusal 400 "plan job must be done before approval")
            (decoded body λ req.
              pass (validate_expected_revision env.revision req.expected_revision) (
                inr (
                  update (approved env user stamp) none (
                    new_audit_event user env.id "environment.approved" "plan approved for apply"
                      (("plan_job_id", name env.last_plan_job_id)
                        ∷ ("template_name", name job.template_name)
                        ∷ ("comment", text req.comment)
                        ∷ [])
                      stamp))))))

-- `handleEnvironmentApply`
unfoldable pub apply_environment :
    (ℕ → Text)
    → Stamp
    → (String → Option Job)
    → User
    → Body Precondition
    → Environment
    → Answer Write
unfolding applying apply_job new_audit_event
apply_environment show stamp jobs user body env =
    refuse_if (not (str_eq env.approval_status "approved"))
      (refusal 400 "plan approval is required before apply")
      (decoded_or none body λ expected. pass (validate_expected_revision env.revision expected) (
        pass (validate_environment_apply_access env) (
          or_bad_request (normalize_and_validate show env.spec) λ spec.
            loaded (jobs env.last_plan_job_id) "load plan job failed" λ plan_job.
              refuse_if
                (not (str_eq plan_job.status "done")
                  || not (truthy plan_job.plan_path)
                  || not (truthy plan_job.workdir))
                (refusal 400 "approved plan artifact is not ready")
                (let job = apply_job env spec plan_job user stamp in
                  inr (
                    update (applying env spec stamp) (some job) (
                      new_audit_event user env.id "environment.apply_requested"
                        "apply queued from approved plan"
                        (("job_id", name job.id) ∷ ("template_name", name job.template_name) ∷ [])
                        stamp))))))

-- `handleEnvironmentRetry`
unfoldable pub retry_environment :
    Stamp → (String → Option Job) → User → Body Precondition → Environment → Answer Write
unfolding retried retry_job new_audit_event
retry_environment stamp jobs user body env =
    refuse_if (not (given env.last_job_id)) (refusal 400 "environment has no job to retry") (
      decoded_or none body λ expected. pass (validate_expected_revision env.revision expected) (
        loaded (jobs env.last_job_id) "load last job failed" λ last_job.
          refuse_if (not (str_eq last_job.status "failed")) (refusal 400 "last job is not failed") (
            refuse_if (leb env.max_retries env.retry_count)
              (refusal 400 "environment retry budget exhausted")
              (pass (validate_environment_retry_access user env last_job) (
                let job = retry_job last_job user stamp in
                inr (
                  update (retried env last_job stamp) (some job) (
                    new_audit_event user env.id "environment.retry_requested"
                      "retry queued for failed job"
                      (("job_id", name job.id) ∷ ("template_name", name job.template_name) ∷ [])
                      stamp)))))))

-- `handleEnvironmentDestroy`
unfoldable pub destroy_environment : Stamp → User → Body DestroyRequest → Environment → Answer Write
unfolding destroying new_environment_plan_job new_audit_event
destroy_environment stamp user body env = decoded body λ req.
    refuse_if (not (text_eq req.confirmation_name env.name))
      (refusal 400 "confirmation name must match environment name")
      (pass (validate_environment_destroy_access env) (
        pass (validate_expected_revision env.revision req.expected_revision) (
          let env' = destroying env stamp in
          let job = new_environment_plan_job env' "" user.email stamp in
          inr (
            update env' (some job) (
              new_audit_event user env.id "environment.destroy_requested" "destroy plan queued"
                (("job_id", name job.id)
                  ∷ ("template_name", name job.template_name)
                  ∷ ("confirmation_name", text req.confirmation_name)
                  ∷ ("comment", text req.comment)
                  ∷ [])
                stamp)))))
