-- ===== src/Server/World.antt =====
-- The server and its runner as one system: the rows of the store, and the requests and jobs that are
-- under way. Between two steps of one of them, any other may make its steps. A transaction of
-- internal/storage/mysql/store.go is one step, and a request that fails at the database, or a process
-- that stops, is one that makes no further step.
pub mod Proposals
pub mod Invariant
pub mod Kept
pub mod Committed
pub mod Inserted
pub mod Marks
pub mod Working
pub mod Unfinished
pub mod Approvals
pub mod Transactions
pub mod Steps
pub mod Stuck
use infra_orch_studio.Common.{
  ℕ, ◌+◌, Bool, true, false, not, ◌&&◌, ◌||◌, Option, none, some, List, [], ◌∷◌, String, Text,
  units, truthy, given, str_eq, ◌==◌, inl, inr, ◌⊎◌, ◌≡◌, if◌then◌else◌,
}
use infra_orch_studio.Server.Domain.{User, Environment, Job, AuditEvent}
use infra_orch_studio.Server.Access.{Answer, Refusal, refusal, refuse_if}
use infra_orch_studio.Server.Changes.{Stamp}
use infra_orch_studio.Server.Handlers.{
  Write, create, update, Body, CreateRequest, PlanRequest, ApproveRequest, DestroyRequest,
  Precondition, create_environment, plan_environment, approve_environment, apply_environment,
  retry_environment, destroy_environment,
}
use infra_orch_studio.Server.Runner.{
  Run, claimed, prepared, executing, succeeded, failed, marking, logging, claimed_job, rendered_job,
  prepare_destroy_plan_job, with_plan_path, start_apply, done_job, failed_job, fail_environment,
  succeed_environment, marked_event, ignored_event, conflict_event,
}

-- A request for an environment that exists, with the user who sends it.
pub data Request : Type 0 where
  plan : PlanRequest → Request
  approve : Body ApproveRequest → Request
  apply : Body Precondition → Request
  retry : Body Precondition → Request
  destroy : Body DestroyRequest → Request

abbrev pub admin_only : Request → Bool
admin_only (plan _) = false
admin_only (approve _) = true
admin_only (apply _) = true
admin_only (retry _) = false
admin_only (destroy _) = true

-- `handleEnvironmentRoute` and the handler that it calls, from the row that was read on.
unfoldable pub handle :
    (ℕ → Text) → Stamp → (String → Option Job) → User → Request → Environment → Answer Write
handle show stamp jobs user (plan req) env = plan_environment show stamp user req env
handle show stamp jobs user (approve body) env = approve_environment stamp jobs user body env
handle show stamp jobs user (apply body) env = apply_environment show stamp jobs user body env
handle show stamp jobs user (retry body) env = retry_environment stamp jobs user body env
handle show stamp jobs user (destroy body) env = destroy_environment stamp user body env

-- How far a request is: its handler has read the environment, or has computed what it writes.
pub data Flight : Type 0 where
  reading : User → Request → Environment → Flight
  writing : Write → Flight

-- `runs` has the job that the runner works on, by its identifier.
pub record World : Type 0 where
  pub environments : String → Option Environment
  pub jobs : String → Option Job
  pub audits : List AuditEvent
  pub requests : ℕ → Option Flight
  pub runs : String → Option Run

-- INSERT, behind the test of the primary key.
abbrev pub put {ℓ} : {A : Type ℓ} → (String → Option A) → String → A → String → Option A
put rows id a other = if str_eq other id then some a else rows other

-- UPDATE … WHERE id, for a job: a row that is not there stays so.
abbrev pub replaced {ℓ} : {A : Type ℓ} → Option A → A → Option A
replaced none a = none
replaced (some _) a = some a

abbrev pub set_request : World → ℕ → Option Flight → World
set_request w k f = record w { requests = λ j. if j == k then f else w.requests j }

abbrev pub set_run : World → String → Option Run → World
set_run w id r = record w { runs = λ j. if str_eq j id then r else w.runs j }

-- `UpdateJob`
abbrev pub update_job : World → Job → World
update_job w job = record w {
  jobs = λ id. if str_eq id job.id then replaced (w.jobs id) job else w.jobs id;
}

-- `UPDATE environments … WHERE id = … AND revision = …`: the row must have the revision before.
abbrev pub revision_fits : Option Environment → Environment → Bool
revision_fits none env = false
revision_fits (some current) env = current.revision + 1 == env.revision

unfoldable pub update_environment : World → Environment → Option World
update_environment w env =
    if revision_fits (w.environments env.id) env
    then some (record w { environments = put w.environments env.id env })
    else none

abbrev pub is_free {ℓ} : {A : Type ℓ} → Option A → Bool
is_free none = true
is_free (some _) = false

-- `CreateEnvironmentWithJobAndAudit`, `UpdateEnvironmentWithJobAndAudit` and
-- `UpdateEnvironmentWithAudit`: all of a transaction, or nothing of it.
unfoldable pub commit : World → Write → Option World
commit w (create env job audit) =
    if is_free (w.environments env.id) && is_free (w.jobs job.id)
    then some (record w {
      environments = put w.environments env.id env;
      jobs = put w.jobs job.id job;
      audits = audit ∷ w.audits;
    })
    else none
commit w (update env (some job) audit) =
    if revision_fits (w.environments env.id) env && is_free (w.jobs job.id)
    then some (record w {
      environments = put w.environments env.id env;
      jobs = put w.jobs job.id job;
      audits = audit ∷ w.audits;
    })
    else none
commit w (update env none audit) =
    if revision_fits (w.environments env.id) env
    then some (record w { environments = put w.environments env.id env; audits = audit ∷ w.audits })
    else none

-- What the runner writes to the log behind its update of an environment.
abbrev pub marked_world : World → String → Job → Environment → Stamp → Option World → World
marked_world w id job env stamp (some w') =
    set_run w' id (some (logging (marked_event job env stamp)))
marked_world w id job env stamp none =
    set_run w id (some (logging (conflict_event job env (w.environments env.id) stamp)))

abbrev pub settled : Job → Environment → Stamp → Option Environment → Run
settled job env stamp (some env') = marking job env'
settled job env stamp none = logging (ignored_event job env stamp)

-- The numbers are printed by `show`, and `join` joins the parts of a file's path.
pub data Step (show : ℕ → Text) (join : List Text → Text) (w : World) : World → Type 0 where
  -- A handler reads its environment; the routes keep some requests to administrators.
  read_environment :
      (k : ℕ) (user : User) (req : Request) (id : String) (env : Environment)
      → w.requests k ≡ none
      → (admin_only req && not user.is_admin) ≡ false
      → w.environments id ≡ some env
      → Step show join w (set_request w k (some (reading user req env)))
  compute_change :
      (k : ℕ) (user : User) (req : Request) (env : Environment) (stamp : Stamp) (write : Write)
      → w.requests k ≡ some (reading user req env)
      → given stamp.job_id ≡ true
      → handle show stamp w.jobs user req env ≡ inr write
      → Step show join w (set_request w k (some (writing write)))
  compute_creation :
      (k : ℕ) (user : User) (body : Body CreateRequest) (stamp : Stamp) (write : Write)
      → w.requests k ≡ none
      → given stamp.job_id ≡ true
      → create_environment show stamp user body ≡ inr write
      → Step show join w (set_request w k (some (writing write)))
  transact :
      (k : ℕ) (write : Write) (w' : World)
      → w.requests k ≡ some (writing write)
      → commit w write ≡ some w'
      → Step show join w (set_request w' k none)
  -- A refusal, a transaction that changes nothing, or a failure.
  end_request : (k : ℕ) → Step show join w (set_request w k none)
  -- A job that belongs to no environment, from internal/api/jobs.go.
  create_job :
      (job : Job)
      → w.jobs job.id ≡ none
      → given job.id ≡ true
      → job.environment_id ≡ ""
      → Step show join w (record w { jobs = put w.jobs job.id job })
  claim :
      (id : String) (job : Job) (now : ℕ)
      → w.jobs id ≡ some job
      → job.status ≡ "queued"
      → Step show join w
          (set_run (update_job w (claimed_job job now)) id (some (claimed (claimed_job job now))))
  -- The runner prepares a plan in a new directory, or one of a destroy in the applied directory.
  render :
      (id : String) (job job' : Job) (template_name : String) (dir : Text) (now : ℕ)
      → w.runs id ≡ some (claimed job)
      → rendered_job show join template_name dir now job ≡ inr job'
      → Step show join w (set_run (update_job w job') id (some (prepared job')))
  prepare_destroy :
      (id : String) (job job' : Job) (template_name : String) (now : ℕ)
      → w.runs id ≡ some (claimed job)
      → prepare_destroy_plan_job join template_name now w.environments job ≡ inr job'
      → Step show join w (set_run (update_job w job') id (some (prepared job')))
  write_plan :
      (id : String) (job : Job) (now : ℕ)
      → w.runs id ≡ some (prepared job)
      → Step show join w (
          set_run
            (update_job w (with_plan_path job now))
            id
            (some (executing (with_plan_path job now))))
  begin_apply :
      (id : String) (job job' : Job) (now : ℕ)
      → w.runs id ≡ some (claimed job)
      → start_apply join now w.jobs job ≡ inr job'
      → Step show join w (set_run (update_job w job') id (some (executing job')))
  finish :
      (id : String) (job : Job) (outputs : Text) (now : ℕ)
      → w.runs id ≡ some (executing job)
      → Step show join w (
          set_run
            (update_job w (done_job job outputs now))
            id
            (some (succeeded (done_job job outputs now))))
  -- Any of the steps before may fail.
  fail :
      (id : String) (job : Job) (message : Text) (now : ℕ)
      → (w.runs id ≡ some (claimed job))
        ⊎ (w.runs id ≡ some (prepared job))
        ⊎ (w.runs id ≡ some (executing job))
      → Step show join w (
          set_run
            (update_job w (failed_job job message now))
            id
            (some (failed (failed_job job message now))))
  -- `failJob` goes on when the store refuses its update, so the row stays as it is.
  fail_unstored :
      (id : String) (job : Job) (message : Text) (now : ℕ)
      → (w.runs id ≡ some (claimed job))
        ⊎ (w.runs id ≡ some (prepared job))
        ⊎ (w.runs id ≡ some (executing job))
      → Step show join w (set_run w id (some (failed (failed_job job message now))))
  -- The runner reads the environment of a job that has ended, and computes what becomes of it.
  settle_success :
      (id : String) (job : Job) (env : Environment) (stamp : Stamp)
      → w.runs id ≡ some (succeeded job)
      → w.environments job.environment_id ≡ some env
      → Step show join w
          (set_run w id (some (settled job env stamp (succeed_environment env job stamp.now))))
  settle_failure :
      (id : String) (job : Job) (env : Environment) (stamp : Stamp)
      → w.runs id ≡ some (failed job)
      → w.environments job.environment_id ≡ some env
      → Step show join w
          (set_run w id (some (settled job env stamp (fail_environment env job stamp.now))))
  mark :
      (id : String) (job : Job) (env : Environment) (stamp : Stamp)
      → w.runs id ≡ some (marking job env)
      → Step show join w (marked_world w id job env stamp (update_environment w env))
  log :
      (id : String) (event : AuditEvent)
      → w.runs id ≡ some (logging event)
      → Step show join w (record (set_run w id none) { audits = event ∷ w.audits })
  -- A runner that stops, or one that cannot store a job, an environment or an event and goes on with
  -- the next job.
  end_run : (id : String) → Step show join w (set_run w id none)

abbrev pub empty_world : World
empty_world = record {
  environments = λ _. none;
  jobs = λ _. none;
  audits = [];
  requests = λ _. none;
  runs = λ _. none;
}

pub data Reach (show : ℕ → Text) (join : List Text → Text) : World → Type 0 where
  start : Reach show join empty_world
  next : {w w' : World} → Reach show join w → Step show join w w' → Reach show join w'
