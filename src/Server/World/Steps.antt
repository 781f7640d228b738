-- ===== src/Server/World/Steps.antt =====
-- Every step keeps what holds between steps, so it holds of every world that is reached.
use infra_orch_studio.Common.{
  ℕ, true, refl, Option, ap, none, some, List, String, Text, inl, inr, ◌⊎◌, ◌≡◌,
}
use infra_orch_studio.Server.Domain.{Job}
use infra_orch_studio.Server.Runner.{Run, claimed, prepared, executing}
use infra_orch_studio.Server.World
use infra_orch_studio.Server.World.{World, Step, Reach, empty_world, update_job, set_run}
use infra_orch_studio.Server.World.Kept.{set_request-IsSound, set_run-IsSound, set_audits-IsSound}
use infra_orch_studio.Server.World.Inserted.{insert_job-IsSound}
use infra_orch_studio.Server.World.Marks.{
  only, row-IsKnown, settled-IsRun, settled_stops, mark-IsSound, succeed_environment-IsAfter,
  fail_environment-IsAfter,
}
use infra_orch_studio.Server.World.Transactions.{commit-IsSound, handle-IsFlight, create-IsFlight}
use infra_orch_studio.Server.World.Working.{
  rendered_job-IsSameJob, prepare_destroy-IsSameJob, start_apply-IsSameJob, running-IsSound,
  claim-IsSound, write_plan-IsSound, finish-IsSound, fail-IsSound, fail_unstored-IsSound,
}
use infra_orch_studio.Server.World.Invariant.{IsSound, is_worked_on, IsRunning, IsFlight, IsRun}

-- A job that may still fail is one that the runner works on.
working :
    {w : World} (s : IsSound w) (id : String) (job : Job)
    → (w.runs id ≡ some (claimed job))
      ⊎ (w.runs id ≡ some (prepared job))
      ⊎ (w.runs id ≡ some (executing job))
    → IsRunning w.environments w.jobs id job
working s id job (inl h) = s.runs id _ h
working s id job (inr (inl h)) = s.runs id _ h
working s id job (inr (inr h)) = s.runs id _ h

at_work :
    {job : Job} (run : Option Run)
    → (run ≡ some (claimed job)) ⊎ (run ≡ some (prepared job)) ⊎ (run ≡ some (executing job))
    → is_worked_on run ≡ true
at_work run (inl h) = ap is_worked_on h
at_work run (inr (inl h)) = ap is_worked_on h
at_work run (inr (inr h)) = ap is_worked_on h

empty-IsSound : IsSound empty_world
empty-IsSound = record {
  environment_ids = λ i e h. cc;
  environments_own = λ i e h. cc;
  job_ids = λ i j h. cc;
  job_names = λ i j h. cc;
  unfinished = λ i j h u g. cc;
  requests = λ k f h. cc;
  runs = λ i r h. cc;
}

module _ {show : ℕ → Text} {join : List Text → Text} where
  pub Step-IsSound : {w w' : World} → Step show join w w' → IsSound w → IsSound w'
  Step-IsSound {w} (World.read_environment k user req id env _ _ h) s =
      set_request-IsSound s k _
        (λ f e. only (IsFlight w.environments w.jobs) (row-IsKnown s id env h) e)
  Step-IsSound {w} (World.compute_change k user req env stamp write h named e) s =
      set_request-IsSound s k _ (λ f p.
        only (IsFlight w.environments w.jobs)
          (handle-IsFlight s show stamp user req env write named (s.requests k _ h) e) p)
  Step-IsSound {w} (World.compute_creation k user body stamp write _ named e) s =
      set_request-IsSound s k _ (λ f p.
        only (IsFlight w.environments w.jobs) (create-IsFlight s show stamp user body write named e)
          p)
  Step-IsSound (World.transact k write w1 h e) s =
      set_request-IsSound (commit-IsSound s write (s.requests k _ h) e) k none (λ f p. cc)
  Step-IsSound (World.end_request k) s = set_request-IsSound s k none (λ f p. cc)
  Step-IsSound (World.create_job job fresh named alone) s =
      insert_job-IsSound s job fresh named alone
  Step-IsSound (World.claim id job now h queued) s = claim-IsSound s id job now h queued
  Step-IsSound (World.render id job job1 template_name dir now h e) s =
      running-IsSound s id job job1 _ (s.runs id _ h) (ap is_worked_on h)
        (rendered_job-IsSameJob show join template_name dir now job e) (λ x. x)
  Step-IsSound (World.prepare_destroy id job job1 template_name now h e) s =
      running-IsSound s id job job1 _ (s.runs id _ h) (ap is_worked_on h)
        (prepare_destroy-IsSameJob join template_name now _ job e) (λ x. x)
  Step-IsSound (World.write_plan id job now h) s =
      write_plan-IsSound s id job now (s.runs id _ h) (ap is_worked_on h)
  Step-IsSound (World.begin_apply id job job1 now h e) s =
      running-IsSound s id job job1 _ (s.runs id _ h) (ap is_worked_on h)
        (start_apply-IsSameJob join now _ job e) (λ x. x)
  Step-IsSound (World.finish id job outputs now h) s =
      finish-IsSound s id job outputs now (s.runs id _ h) (ap is_worked_on h)
  Step-IsSound (World.fail id job message now h) s =
      fail-IsSound s id job message now (working s id job h) (at_work _ h)
  Step-IsSound (World.fail_unstored id job message now h) s =
      fail_unstored-IsSound s id job message now (working s id job h)
  Step-IsSound {w} (World.settle_success id job env stamp h read) s =
      set_run-IsSound s id _ (settled_stops s id job env stamp _) (λ r p.
        only (IsRun w.environments w.jobs id)
          (settled-IsRun s id job env stamp _ (s.runs id _ h) read
            (λ env1 e. succeed_environment-IsAfter env job stamp.now e))
          p)
  Step-IsSound {w} (World.settle_failure id job env stamp h read) s =
      set_run-IsSound s id _ (settled_stops s id job env stamp _) (λ r p.
        only (IsRun w.environments w.jobs id)
          (settled-IsRun s id job env stamp _ (s.runs id _ h) read
            (λ env1 e. fail_environment-IsAfter env job stamp.now e))
          p)
  Step-IsSound (World.mark id job env stamp h) s =
      let (e, m) = s.runs id _ h in mark-IsSound s id job env e m (ap is_worked_on h) stamp
  Step-IsSound (World.log id event h) s =
      set_audits-IsSound (set_run-IsSound s id none refl (λ r p. cc)) _
  Step-IsSound (World.end_run id) s = set_run-IsSound s id none refl (λ r p. cc)

  pub Reach-IsSound : {w : World} → Reach show join w → IsSound w
  Reach-IsSound World.start = empty-IsSound
  Reach-IsSound (World.next r step) = Step-IsSound step (Reach-IsSound r)
