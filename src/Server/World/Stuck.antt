-- ===== src/Server/World/Stuck.antt =====
-- What is left of a job when the store refuses its failure.
use infra_orch_studio.Common.{
  ℕ, ◌+◌, true, false, some, Option, List, String, Text, given, inr, ◌≡◌, refl, sym, ◌∙◌, ap, subst,
  arith, eq_iff, ==_iff,
}
use infra_orch_studio.Server.Domain.{Environment, Job}
use infra_orch_studio.Server.Changes.{Stamp}
use infra_orch_studio.Server.Runner.{
  Run, executing, failed, marking, failed_job, fail_environment, is_stale,
}
use infra_orch_studio.Server.World
use infra_orch_studio.Server.World.{
  World, Step, Reach, set_run, marked_world, update_environment, revision_fits, settled,
}
use infra_orch_studio.Server.World.Invariant.{is_unfinished, is_worked_on, IsRunning, IsBusyWith}
use infra_orch_studio.Server.World.Steps.{Reach-IsSound}

-- The row of a job is running, and its environment is marked failed.
pub record IsStuck (w : World) (id : String) (job : Job) : Type 0 where
  pub row : Job
  pub stored : w.jobs id ≡ some row
  pub running : row.status ≡ "running"
  pub env : Environment
  pub found : w.environments job.environment_id ≡ some env
  pub env_failed : env.status ≡ "failed"

at_work : (run : Option Run) (job : Job) → is_worked_on run ≡ true → is_unfinished run job ≡ true
at_work run job h = ground arith

set_run-here : (w : World) (id : String) (r : Option Run) → (set_run w id r).runs id ≡ r
set_run-here w id r = rw ((eq_iff id id).1 refl) refl

-- The environment of a job that is the last one, once it is marked failed.
abbrev pub marked_failed : Environment → Job → ℕ → Environment
marked_failed env job now = record env {
  status = "failed";
  last_error = job.error;
  last_job_id = job.id;
  revision = env.revision + 1;
  updated_at = now;
}

fail_environment-last :
    (env : Environment) (job : Job) (now : ℕ)
    → env.last_job_id ≡ job.id
    → fail_environment env job now ≡ some (marked_failed env job now)
unfolding fail_environment
fail_environment-last env job now last =
    let fresh : is_stale env job ≡ false = ground (arith, eq_iff env.last_job_id job.id) in
    rw fresh refl

update_environment-fits :
    (w : World) (base env : Environment)
    → w.environments env.id ≡ some base
    → env.revision ≡ base.revision + 1
    → update_environment w env
      ≡ some (record w { environments = World.put w.environments env.id env })
unfolding update_environment
update_environment-fits w base env stored counted =
    let fits : revision_fits (w.environments env.id) env ≡ true =
      rw stored ((==_iff (base.revision + 1) env.revision).1 (sym counted)) in
    rw fits refl

module _ {show : ℕ → Text} {join : List Text → Text} where
  -- In every world that is reached and in which the runner has a job of an environment in execution,
  -- some steps lead to a world in which the row of the job is still running and the environment is
  -- marked failed.
  pub failure_unstored :
      {w : World}
      → Reach show join w
      → (id : String) (job : Job) (message : Text) (stamp : Stamp)
      → w.runs id ≡ some (executing job)
      → given job.environment_id ≡ true
      → (v : World) × Reach show join v × IsStuck v id job
  unfolding failed_job
  failure_unstored {w} reached id job message stamp h g =
      let s = Reach-IsSound reached in
      let x : IsRunning w.environments w.jobs id job = s.runs id _ h in
      let b : IsBusyWith w.environments id x.row =
        s.unfinished id x.row x.stored (at_work (w.runs id) x.row (ap is_worked_on h))
          (rw x.owned g) in
      let fj : Job = failed_job job message stamp.now in
      let stored : w.environments job.environment_id ≡ some b.env =
        ap w.environments (sym x.owned) ∙ b.stored in
      let named : b.env.id ≡ job.environment_id =
        s.environment_ids job.environment_id b.env stored in
      let unstored : World = set_run w id (some (failed fj)) in
      let settling : World =
        set_run unstored id (some (settled fj b.env stamp (fail_environment b.env fj stamp.now))) in
      let env : Environment = marked_failed b.env fj stamp.now in
      let marks : settling.runs id ≡ some (marking fj env) =
        set_run-here unstored id _
        ∙ ap (λ o. some (settled fj b.env stamp o))
            (fail_environment-last b.env fj stamp.now (b.last ∙ sym x.same_id)) in
      let fits =
        update_environment-fits settling b.env env (ap w.environments named ∙ stored) refl in
      (
        marked_world settling id fj env stamp (update_environment settling env),
        World.next
            (World.next
              (World.next reached (World.fail_unstored id job message stamp.now (inr (inr h))))
              (World.settle_failure id fj b.env stamp (set_run-here w id _) stored))
            (World.mark id fj env stamp marks),
        subst (λ o. IsStuck (marked_world settling id fj env stamp o) id job) (sym fits)
            (record {
              row = x.row;
              stored = x.stored;
              running = x.running;
              env = env;
              found = rw ((eq_iff job.environment_id b.env.id).1 (sym named)) refl;
              env_failed = refl;
            }),
      )
