-- ===== src/Server/World/Invariant.antt =====
-- What holds of the rows of the store, of the requests and of the jobs between any two steps.
use infra_orch_studio.Common.{
  ℕ, ◌+◌, ◌≤◌, ◌<◌, Bool, true, false, ◌||◌, Option, none, some, String, given, str_eq, inl, inr,
  ◌⊎◌, ◌≡◌, sym, ◌∙◌, ap, subst, arith,
}
use infra_orch_studio.Server.Lifecycle.{is_environment_busy}
use infra_orch_studio.Server.Domain.{Environment, Job}
use infra_orch_studio.Server.Handlers.{create, update}
use infra_orch_studio.Server.Runner.{
  Run, claimed, prepared, executing, succeeded, failed, marking, logging,
}
use infra_orch_studio.Server.World.{Flight, reading, writing, World}
use infra_orch_studio.Server.World.Proposals.{IsNext, IsQueued}

-- The runner has claimed the job, and neither ended nor failed it.
abbrev pub is_worked_on : Option Run → Bool
is_worked_on (some (claimed job)) = true
is_worked_on (some (prepared job)) = true
is_worked_on (some (executing job)) = true
is_worked_on (some (succeeded job)) = false
is_worked_on (some (failed job)) = false
is_worked_on (some (marking job env)) = false
is_worked_on (some (logging event)) = false
is_worked_on none = false

-- A job that is queued or that the runner works on. A job whose end could not be stored is neither,
-- though its row says that it runs.
abbrev pub is_unfinished : Option Run → Job → Bool
is_unfinished run job = str_eq job.status "queued" || is_worked_on run

abbrev pub Rows : Type 0 → Type 0
Rows A = String → Option A

-- The last job of an environment is stored, and is a job of that environment.
pub record IsOwned (jobs : Rows Job) (env : Environment) : Type 0 where
  pub last : Job
  pub stored : jobs env.last_job_id ≡ some last
  pub owned : last.environment_id ≡ env.id

-- An environment that was read: its row is still there, and is another one only behind a later
-- revision.
pub record IsKnown (environments : Rows Environment) (jobs : Rows Job) (base : Environment)
    : Type 0 where
  pub current : Environment
  pub stored : environments base.id ≡ some current
  pub not_ahead : base.revision ≤ current.revision
  pub same : base.revision ≡ current.revision → base ≡ current
  pub own : IsOwned jobs base

module _ (environments : Rows Environment) (jobs : Rows Job) where
  abbrev pub IsFlight : Flight → Type 0
  IsFlight (reading user req env) = IsKnown environments jobs env
  IsFlight (writing (create env job audit)) = IsQueued env job
  IsFlight (writing (update env none audit)) =
      (base : Environment) × IsKnown environments jobs base
      × IsNext base env
      × (env.last_job_id ≡ base.last_job_id)
  IsFlight (writing (update env (some job) audit)) =
      (base : Environment) × IsKnown environments jobs base × IsNext base env × IsQueued env job

  -- The runner's copy of a job, whose row is running.
  pub record IsRunning (id : String) (job : Job) : Type 0 where
    pub row : Job
    pub stored : jobs id ≡ some row
    pub running : row.status ≡ "running"
    pub owned : row.environment_id ≡ job.environment_id
    pub same_id : job.id ≡ id
    pub copy : job.status ≡ "running"

  -- The same for a job that has ended for the runner; its row may still be running.
  pub record IsEnded (id : String) (job : Job) : Type 0 where
    pub row : Job
    pub stored : jobs id ≡ some row
    pub not_queued : str_eq row.status "queued" ≡ false
    pub owned : row.environment_id ≡ job.environment_id
    pub same_id : job.id ≡ id

  -- What the runner is about to write of an environment.
  pub record IsMark (id : String) (job : Job) (env : Environment) : Type 0 where
    pub base : Environment
    pub known : IsKnown environments jobs base
    pub same_id : env.id ≡ base.id
    pub counted : env.revision ≡ base.revision + 1
    pub was_last : base.last_job_id ≡ id
    pub last : env.last_job_id ≡ id
    pub owner : job.environment_id ≡ env.id

  abbrev pub IsRun : String → Run → Type 0
  IsRun id (claimed job) = IsRunning id job
  IsRun id (prepared job) = IsRunning id job
  IsRun id (executing job) = IsRunning id job
  IsRun id (succeeded job) = IsEnded id job
  IsRun id (failed job) = IsEnded id job
  IsRun id (marking job env) = IsEnded id job × IsMark id job env
  IsRun id (logging event) = Unit {0}

-- The environment of an unfinished job is busy with that job.
pub record IsBusyWith (environments : Rows Environment) (id : String) (job : Job) : Type 0 where
  pub env : Environment
  pub stored : environments job.environment_id ≡ some env
  pub busy : is_environment_busy env.status ≡ true
  pub last : env.last_job_id ≡ id

pub record IsSound (w : World) : Type 0 where
  pub environment_ids :
      (id : String) (env : Environment) → w.environments id ≡ some env → env.id ≡ id
  pub environments_own :
      (id : String) (env : Environment) → w.environments id ≡ some env → IsOwned w.jobs env
  pub job_ids : (id : String) (job : Job) → w.jobs id ≡ some job → job.id ≡ id
  pub job_names : (id : String) (job : Job) → w.jobs id ≡ some job → given id ≡ true
  pub unfinished :
      (id : String) (job : Job)
      → w.jobs id ≡ some job
      → is_unfinished (w.runs id) job ≡ true
      → given job.environment_id ≡ true
      → IsBusyWith w.environments id job
  pub requests : (k : ℕ) (f : Flight) → w.requests k ≡ some f → IsFlight w.environments w.jobs f
  pub runs : (id : String) (r : Run) → w.runs id ≡ some r → IsRun w.environments w.jobs id r

-- The rows of jobs that only grow, and keep their environments.
abbrev pub Grows : Rows Job → Rows Job → Type 0
Grows jobs jobs' =
    (id : String) (job : Job)
    → jobs id ≡ some job
    → (job' : Job) × (jobs' id ≡ some job') × (job'.environment_id ≡ job.environment_id)

-- The rows of environments that only go on to later revisions.
abbrev pub GoesOn : Rows Environment → Rows Environment → Type 0
GoesOn rows rows' =
    (id : String) (env : Environment)
    → rows id ≡ some env
    → (env' : Environment) × (rows' id ≡ some env')
      × ((env' ≡ env) ⊎ (env.revision < env'.revision))

pub IsOwned-mono :
    {jobs jobs' : Rows Job} {env : Environment}
    → Grows jobs jobs'
    → IsOwned jobs env
    → IsOwned jobs' env
IsOwned-mono {env} grows o =
    let (job', stored, owner) = grows env.last_job_id o.last o.stored in
    record { last = job'; stored = stored; owned = owner ∙ o.owned }

pub IsKnown-mono :
    {rows rows' : Rows Environment} {jobs jobs' : Rows Job} {base : Environment}
    → Grows jobs jobs'
    → GoesOn rows rows'
    → IsKnown rows jobs base
    → IsKnown rows' jobs' base
IsKnown-mono {base} grows on k =
    let (env', stored, later) = on base.id k.current k.stored in
    record {
      current = env';
      stored = stored;
      not_ahead = elim later [
        | inl e ↦ subst (λ (x : Environment). base.revision ≤ x.revision) (sym e) k.not_ahead
        | inr more ↦ omega (arith, k.not_ahead)
      ];
      same = λ r. elim later [
        | inl e ↦ k.same (r ∙ ap (λ (x : Environment). x.revision) e) ∙ sym e
        | inr more ↦ absurd (omega (arith, k.not_ahead))
      ];
      own = IsOwned-mono grows k.own;
    }

pub IsFlight-mono :
    {rows rows' : Rows Environment} {jobs jobs' : Rows Job} (f : Flight)
    → Grows jobs jobs'
    → GoesOn rows rows'
    → IsFlight rows jobs f
    → IsFlight rows' jobs' f
IsFlight-mono (reading user req env) grows on k = IsKnown-mono grows on k
IsFlight-mono (writing (create env job audit)) grows on q = q
IsFlight-mono (writing (update env none audit)) grows on (base, k, n, q) =
    (base, IsKnown-mono grows on k, n, q)
IsFlight-mono (writing (update env (some job) audit)) grows on (base, k, n, q) =
    (base, IsKnown-mono grows on k, n, q)

IsEnded-mono :
    {rows rows' : Rows Environment} {jobs jobs' : Rows Job} {id : String} {job : Job}
    → ((row : Job) → jobs id ≡ some row → jobs' id ≡ some row)
    → IsEnded rows jobs id job
    → IsEnded rows' jobs' id job
IsEnded-mono kept x = record {
  row = x.row;
  stored = kept x.row x.stored;
  not_queued = x.not_queued;
  owned = x.owned;
  same_id = x.same_id;
}

IsRunning-mono :
    {rows rows' : Rows Environment} {jobs jobs' : Rows Job} {id : String} {job : Job}
    → ((row : Job) → jobs id ≡ some row → jobs' id ≡ some row)
    → IsRunning rows jobs id job
    → IsRunning rows' jobs' id job
IsRunning-mono kept x = record {
  row = x.row;
  stored = kept x.row x.stored;
  running = x.running;
  owned = x.owned;
  same_id = x.same_id;
  copy = x.copy;
}

-- A run keeps its facts where the row of its own job stays.
pub IsRun-mono :
    {rows rows' : Rows Environment} {jobs jobs' : Rows Job} (id : String) (r : Run)
    → Grows jobs jobs'
    → GoesOn rows rows'
    → ((job : Job) → jobs id ≡ some job → jobs' id ≡ some job)
    → IsRun rows jobs id r
    → IsRun rows' jobs' id r
IsRun-mono id (claimed job) grows on kept x = IsRunning-mono kept x
IsRun-mono id (prepared job) grows on kept x = IsRunning-mono kept x
IsRun-mono id (executing job) grows on kept x = IsRunning-mono kept x
IsRun-mono id (succeeded job) grows on kept x = IsEnded-mono kept x
IsRun-mono id (failed job) grows on kept x = IsEnded-mono kept x
IsRun-mono id (marking job env) grows on kept (x, m) = (
  IsEnded-mono kept x,
  record {
    base = m.base;
    known = IsKnown-mono grows on m.known;
    same_id = m.same_id;
    counted = m.counted;
    was_last = m.was_last;
    last = m.last;
    owner = m.owner;
  },
)
IsRun-mono id (logging event) grows on kept x = tt
