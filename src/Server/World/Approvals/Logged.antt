-- ===== src/Server/World/Approvals/Logged.antt =====
-- Every step keeps the log behind the approvals.
use infra_orch_studio.Common.{
  ℕ, true, none, some, List, ◌∷◌, String, Text, given, str_eq, inl, inr, ◌⊎◌, ◌≡◌, ◌∙◌, ap, arith,
  eq_iff,
}
use infra_orch_studio.Server.Domain.{Job}
use infra_orch_studio.Server.Ensures.{ensured}
use infra_orch_studio.Server.Runner.{claimed, prepared, executing}
use infra_orch_studio.Server.World
use infra_orch_studio.Server.World.{
  World, Flight, Step, Reach, empty_world, update_job, update_environment, revision_fits, commit,
  put, replaced, marked_world, settled, writing,
}
use infra_orch_studio.Server.World.Committed.{put-some}
use infra_orch_studio.Server.World.Marks.{only}
use infra_orch_studio.Server.World.Working.{
  rendered_job-IsSameJob, prepare_destroy-IsSameJob, start_apply-IsSameJob,
}
use infra_orch_studio.Server.World.Invariant.{IsSound}
use infra_orch_studio.Server.World.Steps.{Reach-IsSound}
use infra_orch_studio.Server.World.Approvals.{
  approval_logged, IsCovered, IsLicensed, IsLicensedFlight, IsLicensedRun, IsLogged, extended,
  not_extended, IsLogged-step,
}
use infra_orch_studio.Server.World.Approvals.Handed.{
  handle-IsLicensed, create_environment-IsLicensed,
}
use infra_orch_studio.Server.World.Approvals.Rows.{
  same, request-IsLogged, run-IsLogged, job-IsLogged, commit-IsLogged, mark-IsLogged, work-IsLogged,
}
use infra_orch_studio.Server.World.Approvals.Carried.{
  succeed_environment-IsCovered, fail_environment-IsCovered, settled-IsLicensed,
  claimed_job-IsLicensed, with_plan_path-IsLicensed, done_job-IsLicensed, failed_job-IsLicensed,
}

working :
    {w : World} (s : IsLogged w) (id : String) (job : Job)
    → (w.runs id ≡ some (claimed job))
      ⊎ (w.runs id ≡ some (prepared job))
      ⊎ (w.runs id ≡ some (executing job))
    → IsLicensed w.audits job
working s id job (inl h) = s.runs id _ h
working s id job (inr (inl h)) = s.runs id _ h
working s id job (inr (inr h)) = s.runs id _ h

unowned : {j job : Job} → j ≡ job → job.environment_id ≡ "" → given j.environment_id ≡ true → ⊥
unowned {j} new alone g = clash j.environment_id (ap (λ (x : Job). x.environment_id) new ∙ alone) g
  where
    clash : (t : String) → t ≡ "" → given t ≡ true → ⊥
    clash t e h = ground (arith, eq_iff t "")

module _ {show : ℕ → Text} {join : List Text → Text} where
  Step-IsLogged : {w w' : World} → Step show join w w' → IsSound w → IsLogged w → IsLogged w'
  Step-IsLogged {w} (World.read_environment k user req id env _ _ h) t s =
      request-IsLogged s k _ (λ f e. only (IsLicensedFlight w.audits) (s.environments id env h) e)
  Step-IsLogged {w} (World.compute_change k user req env stamp write h named e) t s =
      request-IsLogged s k _ (λ f p.
        only (IsLicensedFlight w.audits)
          (ensured
            (handle-IsLicensed show stamp user env w.audits (s.requests k _ h) w.jobs req t.job_ids
              s.jobs)
            write e)
          p)
  Step-IsLogged {w} (World.compute_creation k user body stamp write _ named e) t s =
      request-IsLogged s k _ (λ f p.
        only (IsLicensedFlight w.audits)
          (ensured (create_environment-IsLicensed show stamp user w.audits body) write e) p)
  Step-IsLogged (World.transact k write w1 h e) t s =
      request-IsLogged (commit-IsLogged s write (s.requests k _ h) e) k none (λ f p. cc)
  Step-IsLogged (World.end_request k) t s = request-IsLogged s k none (λ f p. cc)
  Step-IsLogged {w} (World.create_job job fresh named alone) t s =
      IsLogged-step s (not_extended w.audits) (same w.environments (IsCovered w.audits))
        (λ i j h. elim (put-some w.jobs job.id i job j h) [
          | inl (_, new) ↦ inr (λ _ g. absurd (unowned new alone g))
          | inr (_, old) ↦ inl old
        ])
        (same w.requests (IsLicensedFlight w.audits)) (same w.runs (IsLicensedRun w.audits))
  Step-IsLogged {w} (World.claim id job now h queued) t s =
      let l = claimed_job-IsLicensed w.audits job now (s.jobs id job h) in job-IsLogged s id _ _ l l
  Step-IsLogged (World.render id job job1 template_name dir now h e) t s =
      work-IsLogged s id job job1 _ (s.runs id _ h)
        (rendered_job-IsSameJob show join template_name dir now job e) (λ x. x)
  Step-IsLogged (World.prepare_destroy id job job1 template_name now h e) t s =
      work-IsLogged s id job job1 _ (s.runs id _ h)
        (prepare_destroy-IsSameJob join template_name now _ job e) (λ x. x)
  Step-IsLogged {w} (World.write_plan id job now h) t s =
      let l = with_plan_path-IsLicensed w.audits job now (s.runs id _ h) in
      job-IsLogged s id _ _ l l
  Step-IsLogged (World.begin_apply id job job1 now h e) t s =
      work-IsLogged s id job job1 _ (s.runs id _ h) (start_apply-IsSameJob join now _ job e)
        (λ x. x)
  Step-IsLogged {w} (World.finish id job outputs now h) t s =
      job-IsLogged s id _ _ (done_job-IsLicensed w.audits job outputs now (s.runs id _ h)) tt
  Step-IsLogged {w} (World.fail id job message now h) t s =
      job-IsLogged s id _ _ (failed_job-IsLicensed w.audits job message now (working s id job h)) tt
  Step-IsLogged {w} (World.fail_unstored id job message now h) t s =
      run-IsLogged s id _ (λ r p. only (IsLicensedRun w.audits) tt p)
  Step-IsLogged {w} (World.settle_success id job env stamp h read) t s = run-IsLogged s id _ (λ r p.
      only (IsLicensedRun w.audits)
        (settled-IsLicensed w.audits job env stamp _ (λ env1 e.
          succeed_environment-IsCovered w.audits env job stamp.now
            (s.environments job.environment_id env read) e))
        p)
  Step-IsLogged {w} (World.settle_failure id job env stamp h read) t s = run-IsLogged s id _ (λ r p.
      only (IsLicensedRun w.audits)
        (settled-IsLicensed w.audits job env stamp _ (λ env1 e.
          fail_environment-IsCovered w.audits env job stamp.now
            (s.environments job.environment_id env read) e))
        p)
  Step-IsLogged (World.mark id job env stamp h) t s =
      mark-IsLogged s id job env stamp (s.runs id _ h)
  Step-IsLogged {w} (World.log id event h) t s =
      IsLogged-step (run-IsLogged s id none (λ r p. cc)) (extended w.audits event)
        (same w.environments (IsCovered (event ∷ w.audits)))
        (same w.jobs (IsLicensed (event ∷ w.audits)))
        (same w.requests (IsLicensedFlight (event ∷ w.audits)))
        (same (World.set_run w id none).runs (IsLicensedRun (event ∷ w.audits)))
  Step-IsLogged (World.end_run id) t s = run-IsLogged s id none (λ r p. cc)

  pub Reach-IsLogged : {w : World} → Reach show join w → IsLogged w
  Reach-IsLogged World.start = record {
    environments = λ i e h. cc;
    jobs = λ i j h. cc;
    requests = λ k f h. cc;
    runs = λ i r h. cc;
  }
  Reach-IsLogged (World.next r step) = Step-IsLogged step (Reach-IsSound r) (Reach-IsLogged r)

  -- In every world that is reached, by any steps of the handlers, the runner and the store in any
  -- order, an apply job of an environment has a source whose plan was approved for that environment,
  -- as the audit log shows.
  pub applies_approved :
      {w : World}
      → Reach show join w
      → (id : String) (job : Job) → w.jobs id ≡ some job
      → str_eq job.kind "tofu.apply" ≡ true
      → given job.environment_id ≡ true
      → approval_logged w.audits job.environment_id job.source_job_id ≡ true
  applies_approved reached id job h = (Reach-IsLogged reached).jobs id job h
