-- ===== src/Server/World/Approvals.antt =====
-- What the audit log says of the plans that were approved.
pub mod Handed
pub mod Rows
pub mod Carried
pub mod Logged
use infra_orch_studio.Common.{
  ℕ, Bool, true, false, ◌&&◌, ◌||◌, Option, none, some, List, [], ◌∷◌, String, given, str_eq, any,
  inl, inr, ◌⊎◌, ◌≡◌, refl, arith,
}
use infra_orch_studio.Server.Domain.{Environment, Job, Detail, name, text, number, AuditEvent}
use infra_orch_studio.Server.Handlers.{Write, create, update}
use infra_orch_studio.Server.Runner.{
  Run, claimed, prepared, executing, succeeded, failed, marking, logging,
}
use infra_orch_studio.Server.World.{Flight, reading, writing, World}

abbrev pub names : String → Detail → Bool
names id (name other) = str_eq other id
names id (text _) = false
names id (number _) = false

-- An event that says that the plan of this job was approved for this environment.
unfoldable pub is_approval : String → String → AuditEvent → Bool
is_approval environment_id plan_id event =
    str_eq event.action "environment.approved"
    && str_eq event.resource_id environment_id
    && any (λ (entry : String × Detail). str_eq entry.0 "plan_job_id" && names plan_id entry.1)
        event.metadata

abbrev pub approval_logged : List AuditEvent → String → String → Bool
approval_logged audits environment_id plan_id = any (is_approval environment_id plan_id) audits

-- The approval of an environment, and the licence of an apply, are in the log.
abbrev pub IsCovered : List AuditEvent → Environment → Type 0
IsCovered audits env =
    str_eq env.approval_status "approved" ≡ true
    → approval_logged audits env.id env.last_plan_job_id ≡ true

abbrev pub IsLicensed : List AuditEvent → Job → Type 0
IsLicensed audits job =
    str_eq job.kind "tofu.apply" ≡ true
    → given job.environment_id ≡ true
    → approval_logged audits job.environment_id job.source_job_id ≡ true

abbrev pub IsLicensedWrite : List AuditEvent → Write → Type 0
IsLicensedWrite audits (create env job audit) =
    IsCovered (audit ∷ audits) env × IsLicensed (audit ∷ audits) job
IsLicensedWrite audits (update env none audit) = IsCovered (audit ∷ audits) env
IsLicensedWrite audits (update env (some job) audit) =
    IsCovered (audit ∷ audits) env × IsLicensed (audit ∷ audits) job

abbrev pub IsLicensedFlight : List AuditEvent → Flight → Type 0
IsLicensedFlight audits (reading user req env) = IsCovered audits env
IsLicensedFlight audits (writing write) = IsLicensedWrite audits write

abbrev pub IsLicensedRun : List AuditEvent → Run → Type 0
IsLicensedRun audits (claimed job) = IsLicensed audits job
IsLicensedRun audits (prepared job) = IsLicensed audits job
IsLicensedRun audits (executing job) = IsLicensed audits job
IsLicensedRun audits (succeeded job) = Unit {0}
IsLicensedRun audits (failed job) = Unit {0}
IsLicensedRun audits (marking job env) = IsCovered audits env
IsLicensedRun audits (logging event) = Unit {0}

pub record IsLogged (w : World) : Type 0 where
  pub environments :
      (id : String) (env : Environment) → w.environments id ≡ some env → IsCovered w.audits env
  pub jobs : (id : String) (job : Job) → w.jobs id ≡ some job → IsLicensed w.audits job
  pub requests : (k : ℕ) (f : Flight) → w.requests k ≡ some f → IsLicensedFlight w.audits f
  pub runs : (id : String) (r : Run) → w.runs id ≡ some r → IsLicensedRun w.audits r

-- A log that only grows.
pub record Extends (audits audits' : List AuditEvent) : Type 0 where
  pub kept :
      (environment_id plan_id : String)
      → approval_logged audits environment_id plan_id ≡ true
      → approval_logged audits' environment_id plan_id ≡ true

pub extended : (audits : List AuditEvent) (event : AuditEvent) → Extends audits (event ∷ audits)
extended audits event = record { kept = λ e p h. ground (arith, h) }

pub not_extended : (audits : List AuditEvent) → Extends audits audits
not_extended audits = record { kept = λ e p h. h }

behind :
    {audits audits' : List AuditEvent} (event : AuditEvent)
    → Extends audits audits'
    → Extends (event ∷ audits) (event ∷ audits')
behind {audits} {audits'} event x = record {
  kept = λ e p h. step (is_approval e p event) (x.kept e p) h;
}
  where
    step : {a b : Bool} (t : Bool) → (a ≡ true → b ≡ true) → (t || a) ≡ true → (t || b) ≡ true
    step true f h = refl
    step false f h = f h

pub IsLicensedWrite-mono :
    {audits audits' : List AuditEvent} (write : Write)
    → Extends audits audits'
    → IsLicensedWrite audits write
    → IsLicensedWrite audits' write
IsLicensedWrite-mono (create env job audit) x (c, l) =
    (λ a. (behind audit x).kept _ _ (c a), λ a g. (behind audit x).kept _ _ (l a g))
IsLicensedWrite-mono (update env none audit) x c = λ a. (behind audit x).kept _ _ (c a)
IsLicensedWrite-mono (update env (some job) audit) x (c, l) =
    (λ a. (behind audit x).kept _ _ (c a), λ a g. (behind audit x).kept _ _ (l a g))

pub IsLicensedFlight-mono :
    {audits audits' : List AuditEvent} (f : Flight)
    → Extends audits audits'
    → IsLicensedFlight audits f
    → IsLicensedFlight audits' f
IsLicensedFlight-mono (reading user req env) x c = λ a. x.kept _ _ (c a)
IsLicensedFlight-mono (writing write) x l = IsLicensedWrite-mono write x l

pub IsLicensedRun-mono :
    {audits audits' : List AuditEvent} (r : Run)
    → Extends audits audits'
    → IsLicensedRun audits r
    → IsLicensedRun audits' r
IsLicensedRun-mono (claimed job) x l = λ a g. x.kept _ _ (l a g)
IsLicensedRun-mono (prepared job) x l = λ a g. x.kept _ _ (l a g)
IsLicensedRun-mono (executing job) x l = λ a g. x.kept _ _ (l a g)
IsLicensedRun-mono (succeeded job) x l = tt
IsLicensedRun-mono (failed job) x l = tt
IsLicensedRun-mono (marking job env) x c = λ a. x.kept _ _ (c a)
IsLicensedRun-mono (logging event) x l = tt

-- What a step may change: each row, request and run is an old one, or is logged.
pub IsLogged-step :
    {w w' : World}
    → IsLogged w
    → Extends w.audits w'.audits
    → ((id : String) (env : Environment)
        → w'.environments id ≡ some env
        → (w.environments id ≡ some env) ⊎ IsCovered w'.audits env)
    → ((id : String) (job : Job)
        → w'.jobs id ≡ some job
        → (w.jobs id ≡ some job) ⊎ IsLicensed w'.audits job)
    → ((k : ℕ) (f : Flight)
        → w'.requests k ≡ some f
        → (w.requests k ≡ some f) ⊎ IsLicensedFlight w'.audits f)
    → ((id : String) (r : Run)
        → w'.runs id ≡ some r
        → (w.runs id ≡ some r) ⊎ IsLicensedRun w'.audits r)
    → IsLogged w'
IsLogged-step s x envs jobs requests runs = record {
  environments = λ id env h. elim (envs id env h) [
    | inl old ↦ λ a. x.kept _ _ (s.environments id env old a)
    | inr new ↦ new
  ];
  jobs = λ id job h. elim (jobs id job h) [
    | inl old ↦ λ a g. x.kept _ _ (s.jobs id job old a g)
    | inr new ↦ new
  ];
  requests = λ k f h. elim (requests k f h) [
    | inl old ↦ IsLicensedFlight-mono f x (s.requests k f old)
    | inr new ↦ new
  ];
  runs = λ id r h. elim (runs id r h) [
    | inl old ↦ IsLicensedRun-mono r x (s.runs id r old)
    | inr new ↦ new
  ];
}
