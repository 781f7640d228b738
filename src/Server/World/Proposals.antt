-- ===== src/Server/World/Proposals.antt =====
-- What a handler hands over to the store, compared with the environment that it read.
use infra_orch_studio.Common.{
  ℕ, ◌+◌, Bool, true, false, Option, none, some, String, Text, given, inl, inr, ◌≡◌, refl, arith,
  Bool-cases, if◌then◌else◌,
}
use infra_orch_studio.Server.Lifecycle.{
  is_environment_busy, can_approve_plan, can_queue_apply, can_queue_destroy, can_retry,
}
use infra_orch_studio.Server.Lifecycle.Busy.{busy_blocks}
use infra_orch_studio.Server.Domain.{User, Environment, Job, AuditEvent}
use infra_orch_studio.Server.Access.{
  validate_environment_plan_access, validate_environment_approval_access,
  validate_environment_apply_access, validate_environment_retry_access,
  validate_environment_destroy_access,
}
use infra_orch_studio.Server.Changes.{Stamp}
use infra_orch_studio.Server.Handlers.{
  Write, create, update, CreateRequest, create_environment, PlanRequest, plan_environment,
  approve_environment, apply_environment, retry_environment, destroy_environment, Body,
  ApproveRequest, DestroyRequest, Precondition,
}
use infra_orch_studio.Server.Ensures.{
  Ensures, handed, Ensures-refuse_if, Ensures-pass, Ensures-loaded, Ensures-or_bad_request,
  Ensures-decoded, Ensures-decoded_or,
}
use infra_orch_studio.Server.World.{Request, handle, plan, approve, apply, retry, destroy}

-- The environment has the next revision, and the one that was read was not busy.
pub record IsNext (base env : Environment) : Type 0 where
  pub same_id : env.id ≡ base.id
  pub counted : env.revision ≡ base.revision + 1
  pub was_idle : is_environment_busy base.status ≡ false

-- A queued job is the last one of an environment that is busy from then on.
pub record IsQueued (env : Environment) (job : Job) : Type 0 where
  pub busy : is_environment_busy env.status ≡ true
  pub last : env.last_job_id ≡ job.id
  pub owned : job.environment_id ≡ env.id
  pub queued : job.status ≡ "queued"
  pub named : given job.id ≡ true

abbrev pub Proposes : Environment → Write → Type 0
Proposes base (create env job audit) = ⊥
Proposes base (update env none audit) = IsNext base env × (env.last_job_id ≡ base.last_job_id)
Proposes base (update env (some job) audit) = IsNext base env × IsQueued env job

plan_allowed :
    (env : Environment) (operation : String)
    → validate_environment_plan_access env operation ≡ none
    → is_environment_busy env.status ≡ false
unfolding validate_environment_plan_access
plan_allowed env operation h = ground arith

-- A test that fails on a busy status passes only on another.
idle_of :
    (status : String) (test : Bool)
    → (is_environment_busy status ≡ true → test ≡ false)
    → test ≡ true
    → is_environment_busy status ≡ false
idle_of status test blocked passed = elim (Bool-cases (is_environment_busy status)) [
  | inl busy ↦ absurd (ground (arith, blocked busy))
  | inr idle ↦ idle
]

approval_allowed :
    (env : Environment)
    → validate_environment_approval_access env ≡ none
    → is_environment_busy env.status ≡ false
unfolding validate_environment_approval_access
approval_allowed env h =
    idle_of env.status (can_approve_plan env.status env.approval_status)
      (λ busy. (busy_blocks env.status env.approval_status env.operation busy).1) (ground arith)

apply_allowed :
    (env : Environment)
    → validate_environment_apply_access env ≡ none
    → is_environment_busy env.status ≡ false
unfolding validate_environment_apply_access
apply_allowed env h =
    idle_of env.status (can_queue_apply env.status env.approval_status env.operation)
      (λ busy. (busy_blocks env.status env.approval_status env.operation busy).2) (ground arith)

retry_allowed :
    (user : User) (env : Environment) (job : Job)
    → validate_environment_retry_access user env job ≡ none
    → is_environment_busy env.status ≡ false
unfolding validate_environment_retry_access
retry_allowed user env job h =
    idle_of env.status (can_retry env.status) (λ busy. (busy_blocks env.status "" "" busy).4)
      (ground arith)

destroy_allowed :
    (env : Environment)
    → validate_environment_destroy_access env ≡ none
    → is_environment_busy env.status ≡ false
unfolding validate_environment_destroy_access can_queue_destroy
destroy_allowed env h = ground arith

retried_busy :
    (apply : Bool) → is_environment_busy (if apply then "applying" else "planning") ≡ true
unfolding is_environment_busy
retried_busy true = refl
retried_busy false = refl

-- A handler hands over a next environment, alone or with the job that it queues.
next_alone :
    {base env : Environment} {audit : AuditEvent}
    → IsNext base env
    → env.last_job_id ≡ base.last_job_id
    → Ensures (Proposes base) (inr (update env none audit))
next_alone n same = handed _ (n, same)

next_queued :
    {base env : Environment} {job : Job} {audit : AuditEvent}
    → IsNext base env
    → IsQueued env job
    → Ensures (Proposes base) (inr (update env (some job) audit))
next_queued n q = handed _ (n, q)

planning_busy : is_environment_busy "planning" ≡ true
unfolding is_environment_busy
planning_busy = refl

applying_busy : is_environment_busy "applying" ≡ true
unfolding is_environment_busy
applying_busy = refl

abbrev pub ProposesNew : Write → Type 0
ProposesNew (create env job audit) = IsQueued env job
ProposesNew (update env job audit) = ⊥

module _ (show : ℕ → Text) (stamp : Stamp) (named : given stamp.job_id ≡ true) (user : User)
    (env : Environment) where
  plan_environment-Proposes :
      (req : PlanRequest) → Ensures (Proposes env) (plan_environment show stamp user req env)
  unfolding plan_environment
  plan_environment-Proposes req = Ensures-or_bad_request _ _ λ spec _. Ensures-pass _ _ λ allowed.
      Ensures-pass _ _ λ _.
        next_queued (record { same_id = refl; counted = refl; was_idle = plan_allowed _ _ allowed })
          (record { busy = planning_busy; last = refl; owned = refl; queued = refl; named = named })

  approve_environment-Proposes :
      (jobs : String → Option Job) (body : Body ApproveRequest)
      → Ensures (Proposes env) (approve_environment stamp jobs user body env)
  unfolding approve_environment
  approve_environment-Proposes jobs body = Ensures-refuse_if _ _ _ λ _. Ensures-pass _ _ λ allowed.
      Ensures-loaded _ _ _ λ job _. Ensures-refuse_if _ _ _ λ _. Ensures-decoded _ _ λ req.
        Ensures-pass _ _ λ _.
          next_alone
            (record { same_id = refl; counted = refl; was_idle = approval_allowed _ allowed }) refl

  apply_environment-Proposes :
      (jobs : String → Option Job) (body : Body Precondition)
      → Ensures (Proposes env) (apply_environment show stamp jobs user body env)
  unfolding apply_environment
  apply_environment-Proposes jobs body = Ensures-refuse_if _ _ _ λ _.
      Ensures-decoded_or _ _ _ λ expected. Ensures-pass _ _ λ _. Ensures-pass _ _ λ allowed.
        Ensures-or_bad_request _ _ λ spec _. Ensures-loaded _ _ _ λ job _.
          Ensures-refuse_if _ _ _ λ _.
            next_queued
              (record { same_id = refl; counted = refl; was_idle = apply_allowed _ allowed })
              (record {
                busy = applying_busy;
                last = refl;
                owned = refl;
                queued = refl;
                named = named;
              })

  destroy_environment-Proposes :
      (body : Body DestroyRequest)
      → Ensures (Proposes env) (destroy_environment stamp user body env)
  unfolding destroy_environment
  destroy_environment-Proposes body = Ensures-decoded _ _ λ req. Ensures-refuse_if _ _ _ λ _.
      Ensures-pass _ _ λ allowed. Ensures-pass _ _ λ _.
        next_queued
          (record { same_id = refl; counted = refl; was_idle = destroy_allowed _ allowed })
          (record { busy = planning_busy; last = refl; owned = refl; queued = refl; named = named })

  retry_environment-Proposes :
      (jobs : String → Option Job) (body : Body Precondition)
      → ((job : Job) → jobs env.last_job_id ≡ some job → job.environment_id ≡ env.id)
      → Ensures (Proposes env) (retry_environment stamp jobs user body env)
  unfolding retry_environment
  retry_environment-Proposes jobs body owns = Ensures-refuse_if _ _ _ λ _.
      Ensures-decoded_or _ _ _ λ expected. Ensures-pass _ _ λ _. Ensures-loaded _ _ _ λ job read.
        Ensures-refuse_if _ _ _ λ _. Ensures-refuse_if _ _ _ λ _. Ensures-pass _ _ λ allowed.
          next_queued
            (record { same_id = refl; counted = refl; was_idle = retry_allowed _ _ _ allowed })
            (record {
              busy = retried_busy _;
              last = refl;
              owned = owns job read;
              queued = refl;
              named = named;
            })

  -- Every handler, for an environment whose last job is its own.
  pub handle-Proposes :
      (jobs : String → Option Job) (req : Request)
      → ((job : Job) → jobs env.last_job_id ≡ some job → job.environment_id ≡ env.id)
      → Ensures (Proposes env) (handle show stamp jobs user req env)
  unfolding handle
  handle-Proposes jobs (plan req) owns = plan_environment-Proposes req
  handle-Proposes jobs (approve body) owns = approve_environment-Proposes jobs body
  handle-Proposes jobs (apply body) owns = apply_environment-Proposes jobs body
  handle-Proposes jobs (retry body) owns = retry_environment-Proposes jobs body owns
  handle-Proposes jobs (destroy body) owns = destroy_environment-Proposes body

pub create_environment-Proposes :
    (show : ℕ → Text) (stamp : Stamp) (user : User) (body : Body CreateRequest)
    → given stamp.job_id ≡ true
    → Ensures ProposesNew (create_environment show stamp user body)
unfolding create_environment
create_environment-Proposes show stamp user body named = Ensures-decoded _ _ λ req.
    Ensures-or_bad_request _ _ λ spec _.
      handed _
        (record { busy = planning_busy; last = refl; owned = refl; queued = refl; named = named })
