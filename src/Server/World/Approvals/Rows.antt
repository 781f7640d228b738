-- ===== src/Server/World/Approvals/Rows.antt =====
-- The log stays behind the approvals when one row, one request or one run is replaced.
use infra_orch_studio.Common.{
  ℕ, true, ◌==◌, Option, none, some, List, ◌∷◌, String, str_eq, inl, inr, ◌⊎◌, ◌≡◌, sym, subst,
  Bool-cases,
}
use infra_orch_studio.Server.Domain.{Environment, Job, AuditEvent}
use infra_orch_studio.Server.Changes.{Stamp}
use infra_orch_studio.Server.Handlers.{Write, create, update}
use infra_orch_studio.Server.Runner.{Run}
use infra_orch_studio.Server.World
use infra_orch_studio.Server.World.{
  World, Flight, Step, Reach, empty_world, update_job, update_environment, revision_fits, commit,
  put, replaced, marked_world, settled, writing,
}
use infra_orch_studio.Server.World.Kept.{if-some, replaced-some}
use infra_orch_studio.Server.World.Committed.{put-some}
use infra_orch_studio.Server.World.Marks.{only}
use infra_orch_studio.Server.World.Transactions.{when_some}
use infra_orch_studio.Server.World.Working.{IsSameJob}
use infra_orch_studio.Server.World.Approvals.{
  approval_logged, IsCovered, IsLicensed, IsLicensedWrite, IsLicensedFlight, IsLicensedRun,
  IsLogged, Extends, extended, not_extended, IsLogged-step,
}

-- The parts of a step that leave the rows, the requests or the runs alone.
pub same {ℓ κ μ} :
    {K : Type ℓ} {A : Type κ} (rows : K → Option A) (P : A → Type μ)
    → (k : K) (a : A) → rows k ≡ some a
    → (rows k ≡ some a) ⊎ P a
same rows P k a h = inl h

-- A copy of a job applies what the job applies.
copied :
    (audits : List AuditEvent) (job job' : Job)
    → job'.environment_id ≡ job.environment_id
    → job'.kind ≡ job.kind
    → job'.source_job_id ≡ job.source_job_id
    → IsLicensed audits job
    → IsLicensed audits job'
copied audits job job' e k p l = λ apply g.
    subst (λ x. approval_logged audits x job'.source_job_id ≡ true) (sym e)
      (subst (λ x. approval_logged audits job.environment_id x ≡ true) (sym p)
        (l (rw (← k) apply) (rw (← e) g)))

module _ {w : World} (s : IsLogged w) where
  pub request-IsLogged :
      (k : ℕ) (o : Option Flight)
      → ((f : Flight) → o ≡ some f → IsLicensedFlight w.audits f)
      → IsLogged (World.set_request w k o)
  request-IsLogged k o ok =
      IsLogged-step s (not_extended w.audits) (same w.environments (IsCovered w.audits))
        (same w.jobs (IsLicensed w.audits))
        (λ j f h. elim (if-some (j == k) o (w.requests j) h) [
          | inl (_, new) ↦ inr (ok f new)
          | inr (_, old) ↦ inl old
        ])
        (same w.runs (IsLicensedRun w.audits))

  pub run-IsLogged :
      (id : String) (o : Option Run)
      → ((r : Run) → o ≡ some r → IsLicensedRun w.audits r)
      → IsLogged (World.set_run w id o)
  run-IsLogged id o ok =
      IsLogged-step s (not_extended w.audits) (same w.environments (IsCovered w.audits))
        (same w.jobs (IsLicensed w.audits)) (same w.requests (IsLicensedFlight w.audits))
        (λ i r h. elim (if-some (str_eq i id) o (w.runs i) h) [
          | inl (_, new) ↦ inr (ok r new)
          | inr (_, old) ↦ inl old
        ])

  -- The runner stores a licensed job.
  pub job-IsLogged :
      (id : String) (job : Job) (r : Run)
      → IsLicensed w.audits job
      → IsLicensedRun w.audits r
      → IsLogged (World.set_run (update_job w job) id (some r))
  job-IsLogged id job r l ok =
      IsLogged-step s (not_extended w.audits) (same w.environments (IsCovered w.audits))
        (λ i j h. elim (if-some (str_eq i job.id) (replaced (w.jobs i) job) (w.jobs i) h) [
          | inl (_, new) ↦ inr (subst (IsLicensed w.audits) (replaced-some (w.jobs i) job new) l)
          | inr (_, old) ↦ inl old
        ])
        (same w.requests (IsLicensedFlight w.audits))
        (λ i x h. elim (if-some (str_eq i id) (some r) (w.runs i) h) [
          | inl (_, new) ↦ inr (only (IsLicensedRun w.audits) ok new)
          | inr (_, old) ↦ inl old
        ])

  environment-IsLogged :
      (env : Environment) (audits : List AuditEvent)
      → Extends w.audits audits
      → IsCovered audits env
      → IsLogged (record w { environments = put w.environments env.id env; audits = audits })
  environment-IsLogged env audits x c =
      IsLogged-step s x
        (λ i e h. elim (put-some w.environments env.id i env e h) [
          | inl (_, new) ↦ inr (subst (IsCovered audits) (sym new) c)
          | inr (_, old) ↦ inl old
        ])
        (same w.jobs (IsLicensed audits)) (same w.requests (IsLicensedFlight audits))
        (same w.runs (IsLicensedRun audits))

  queued-IsLogged :
      (env : Environment) (job : Job) (audit : AuditEvent)
      → IsCovered (audit ∷ w.audits) env
      → IsLicensed (audit ∷ w.audits) job
      → IsLogged (record w {
        environments = put w.environments env.id env;
        jobs = put w.jobs job.id job;
        audits = audit ∷ w.audits;
      })
  queued-IsLogged env job audit c l =
      IsLogged-step s (extended w.audits audit)
        (λ i e h. elim (put-some w.environments env.id i env e h) [
          | inl (_, new) ↦ inr (subst (IsCovered (audit ∷ w.audits)) (sym new) c)
          | inr (_, old) ↦ inl old
        ])
        (λ i j h. elim (put-some w.jobs job.id i job j h) [
          | inl (_, new) ↦ inr (subst (IsLicensed (audit ∷ w.audits)) (sym new) l)
          | inr (_, old) ↦ inl old
        ])
        (same w.requests (IsLicensedFlight (audit ∷ w.audits)))
        (same w.runs (IsLicensedRun (audit ∷ w.audits)))

  pub commit-IsLogged :
      (write : Write) {w' : World}
      → IsLicensedWrite w.audits write
      → commit w write ≡ some w'
      → IsLogged w'
  unfolding commit
  commit-IsLogged (create env job audit) (c, l) h =
      subst IsLogged (when_some _ _ h).1 (queued-IsLogged env job audit c l)
  commit-IsLogged (update env none audit) c h =
      subst IsLogged (when_some _ _ h).1
        (environment-IsLogged env (audit ∷ w.audits) (extended w.audits audit) c)
  commit-IsLogged (update env (some job) audit) (c, l) h =
      subst IsLogged (when_some _ _ h).1 (queued-IsLogged env job audit c l)

pub mark-IsLogged :
    {w : World}
    → IsLogged w
    → (id : String) (job : Job) (env : Environment) (stamp : Stamp) → IsCovered w.audits env
    → IsLogged (marked_world w id job env stamp (update_environment w env))
unfolding update_environment
mark-IsLogged {w} s id job env stamp c =
    elim (Bool-cases (revision_fits (w.environments env.id) env)) [
      | inl fits ↦ rw fits (
          run-IsLogged (environment-IsLogged s env w.audits (not_extended w.audits) c) id _
            (λ r h. only (IsLicensedRun w.audits) tt h))
      | inr late ↦ rw late (run-IsLogged s id _ (λ r h. only (IsLicensedRun w.audits) tt h))
    ]

-- The runner goes on with a licensed job.
pub work-IsLogged :
    {w : World}
    → IsLogged w
    → (id : String) (job job' : Job) (r : Run) → IsLicensed w.audits job
    → IsSameJob job job'
    → (IsLicensed w.audits job' → IsLicensedRun w.audits r)
    → IsLogged (World.set_run (update_job w job') id (some r))
work-IsLogged {w} s id job job' r l j go =
    let l' = copied w.audits job job' j.same_environment j.same_kind j.same_source l in
    job-IsLogged s id job' r l' (go l')
