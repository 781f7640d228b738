-- ===== src/Server/World/Kept.antt =====
-- The changes of the rows, the requests and the runs that keep what holds between steps.
use infra_orch_studio.Common.{
  ℕ, Bool, true, false, ◌==◌, Option, none, some, List, String, given, str_eq, inl, inr, ◌⊎◌, ◌≡◌,
  refl, sym, ◌∙◌, ap, subst, arith, eq_iff, Bool-cases, if◌then◌else◌,
}
use infra_orch_studio.Server.Domain.{Environment, Job, AuditEvent}
use infra_orch_studio.Server.Runner.{Run}
use infra_orch_studio.Server.World.{Flight, World, set_request, set_run, update_job, replaced}
use infra_orch_studio.Server.World.Invariant.{
  IsSound, IsFlight, IsRun, IsBusyWith, Rows, Grows, GoesOn, IsOwned-mono, IsFlight-mono,
  IsRun-mono, is_unfinished, is_worked_on,
}

-- What an updated row shows: the new value where the test holds, and the old one elsewhere.
pub if-some {ℓ} :
    {A : Type ℓ} (test : Bool) (x y : Option A) {a : A}
    → (if test then x else y) ≡ some a
    → ((test ≡ true) × (x ≡ some a)) ⊎ ((test ≡ false) × (y ≡ some a))
if-some true x y h = inl (refl, h)
if-some false x y h = inr (refl, h)

pub replaced-some {ℓ} : {A : Type ℓ} (o : Option A) (x : A) {a : A} → replaced o x ≡ some a → x ≡ a
replaced-some none x h = cc
replaced-some (some b) x h = cc

pub stays : (rows : Rows Environment) → GoesOn rows rows
stays rows id env h = (env, h, inl refl)

pub same_jobs : (jobs : Rows Job) → Grows jobs jobs
same_jobs jobs id job h = (job, h, refl)

module _ {w : World} (s : IsSound w) where
  pub set_request-IsSound :
      (k : ℕ) (o : Option Flight)
      → ((f : Flight) → o ≡ some f → IsFlight w.environments w.jobs f)
      → IsSound (set_request w k o)
  set_request-IsSound k o ok = record {
    environment_ids = s.environment_ids;
    environments_own = s.environments_own;
    job_ids = s.job_ids;
    job_names = s.job_names;
    unfinished = s.unfinished;
    requests = λ j f h. elim (if-some (j == k) o (w.requests j) h) [
      | inl (_, new) ↦ ok f new
      | inr (_, old) ↦ s.requests j f old
    ];
    runs = s.runs;
  }

  -- A run that is put down leaves no other job unfinished.
  was_unfinished :
      (id i : String) (o : Option Run) (j : Job)
      → is_worked_on o ≡ false
      → is_unfinished (if str_eq i id then o else w.runs i) j ≡ true
      → is_unfinished (w.runs i) j ≡ true
  was_unfinished id i o j stopped u = elim (Bool-cases (str_eq i id)) [
    | inl here ↦
        let v : is_unfinished o j ≡ true =
          subst (λ b. is_unfinished (if b then o else w.runs i) j ≡ true) here u in
        by_status j o (w.runs i) stopped v
    | inr other ↦ subst (λ b. is_unfinished (if b then o else w.runs i) j ≡ true) other u
  ]
    where
      by_status :
          (j : Job) (o p : Option Run)
          → is_worked_on o ≡ false
          → is_unfinished o j ≡ true
          → is_unfinished p j ≡ true
      by_status j o p stopped v = ground arith

  pub set_run-IsSound :
      (id : String) (o : Option Run)
      → is_worked_on o ≡ false
      → ((r : Run) → o ≡ some r → IsRun w.environments w.jobs id r)
      → IsSound (set_run w id o)
  set_run-IsSound id o stopped ok = record {
    environment_ids = s.environment_ids;
    environments_own = s.environments_own;
    job_ids = s.job_ids;
    job_names = s.job_names;
    unfinished = λ i j h u g. s.unfinished i j h (was_unfinished id i o j stopped u) g;
    requests = s.requests;
    runs = λ i r h. elim (if-some (str_eq i id) o (w.runs i) h) [
      | inl (here, new) ↦
          subst (λ x. IsRun w.environments w.jobs x r) (sym ((eq_iff i id).0 here)) (ok r new)
      | inr (_, old) ↦ s.runs i r old
    ];
  }

  pub set_audits-IsSound : (audits : List AuditEvent) → IsSound (record w { audits = audits })
  set_audits-IsSound audits = record {
    environment_ids = s.environment_ids;
    environments_own = s.environments_own;
    job_ids = s.job_ids;
    job_names = s.job_names;
    unfinished = s.unfinished;
    requests = s.requests;
    runs = s.runs;
  }

  -- The runner stores a job that it works on, and goes on.
  module _ {id : String} {row : Job} (stored : w.jobs id ≡ some row) (job : Job)
      (same_id : job.id ≡ id) (owned : job.environment_id ≡ row.environment_id) where
    pub updated : (update_job w job).jobs id ≡ some job
    updated = rw ((eq_iff id job.id).1 (sym same_id), stored) refl

    same_row : (i : String) (old : Job) → i ≡ id → w.jobs i ≡ some old → old ≡ row
    same_row i old e h = cc

    update_job-Grows : Grows w.jobs (update_job w job).jobs
    update_job-Grows i old h = elim (Bool-cases (str_eq i job.id)) [
      | inl here ↦
          let same : old ≡ row = same_row i old ((eq_iff i job.id).0 here ∙ same_id) h in
          (job, rw (here, h) refl, owned ∙ ap (λ (x : Job). x.environment_id) (sym same))
      | inr other ↦ (old, rw other h, refl)
    ]

    update_job-other :
        (i : String)
        → str_eq i id ≡ false
        → (old : Job) → w.jobs i ≡ some old
        → (update_job w job).jobs i ≡ some old
    update_job-other i other old h = rw same_id (rw other h)

    still_busy :
        (i : String) (j : Job)
        → i ≡ id
        → j ≡ job
        → is_unfinished (w.runs id) row ≡ true
        → given j.environment_id ≡ true
        → IsBusyWith w.environments i j
    still_busy i j here new u g =
        let owner : j.environment_id ≡ row.environment_id =
          ap (λ (x : Job). x.environment_id) new ∙ owned in
        let b = s.unfinished id row stored u (rw (← owner) g) in
        record { env = b.env; stored = rw owner b.stored; busy = b.busy; last = b.last ∙ sym here }

    new_run :
        {r x : Run} (i : String)
        → i ≡ id
        → r ≡ x
        → IsRun w.environments (update_job w job).jobs id r
        → IsRun w.environments (update_job w job).jobs i x
    new_run i here new ok = rw here (rw (← new) ok)

    -- The run that is shown at the job, and elsewhere.
    shown_here :
        (i : String) (j : Job) (r : Run)
        → i ≡ id
        → j ≡ job
        → is_unfinished (if str_eq i id then some r else w.runs i) j ≡ true
        → is_unfinished (some r) job ≡ true
    shown_here i j r here new u =
        subst (λ x. is_unfinished (some r) x ≡ true) new
          (subst (λ b. is_unfinished (if b then some r else w.runs i) j ≡ true)
            ((eq_iff i id).1 here) u)

    shown_other :
        (i : String) (j : Job) (r : Run)
        → str_eq i job.id ≡ false
        → is_unfinished (if str_eq i id then some r else w.runs i) j ≡ true
        → is_unfinished (w.runs i) j ≡ true
    shown_other i j r other u =
        subst (λ b. is_unfinished (if b then some r else w.runs i) j ≡ true)
          (subst (λ x. str_eq i x ≡ false) same_id other) u

    pub update_job-IsSound :
        (r : Run)
        → (is_unfinished (some r) job ≡ true → is_unfinished (w.runs id) row ≡ true)
        → (IsRun w.environments (update_job w job).jobs id r)
        → IsSound (set_run (update_job w job) id (some r))
    update_job-IsSound r was ok = record {
      environment_ids = s.environment_ids;
      environments_own = λ i env h. IsOwned-mono update_job-Grows (s.environments_own i env h);
      job_ids = λ i j h. elim (if-some (str_eq i job.id) (replaced (w.jobs i) job) (w.jobs i) h) [
        | inl (here, new) ↦
            ap (λ (x : Job). x.id) (sym (replaced-some (w.jobs i) job new))
            ∙ sym ((eq_iff i job.id).0 here)
        | inr (_, old) ↦ s.job_ids i j old
      ];
      job_names = λ i j h. elim (if-some (str_eq i job.id) (replaced (w.jobs i) job) (w.jobs i) h) [
        | inl (here, _) ↦ rw ((eq_iff i job.id).0 here ∙ same_id) (s.job_names id row stored)
        | inr (_, old) ↦ s.job_names i j old
      ];
      unfinished = λ i j h u g.
          elim (if-some (str_eq i job.id) (replaced (w.jobs i) job) (w.jobs i) h) [
            | inl (here, new) ↦
                let place = (eq_iff i job.id).0 here ∙ same_id in
                let it = sym (replaced-some (w.jobs i) job new) in
                still_busy i j place it (was (shown_here i j r place it u)) g
            | inr (other, old) ↦ s.unfinished i j old (shown_other i j r other u) g
          ];
      requests =
          λ k f h. IsFlight-mono f update_job-Grows (stays w.environments) (s.requests k f h);
      runs = λ i x h. elim (if-some (str_eq i id) (some r) (w.runs i) h) [
        | inl (here, new) ↦ new_run i ((eq_iff i id).0 here) (cc) ok
        | inr (other, old) ↦
            IsRun-mono i x update_job-Grows (stays w.environments) (update_job-other i other)
              (s.runs i x old)
      ];
    }
