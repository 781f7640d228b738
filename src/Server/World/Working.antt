-- ===== src/Server/World/Working.antt =====
-- The steps of the runner on a job keep what holds between steps.
use infra_orch_studio.Common.{
  ℕ, Bool, true, false, Option, none, some, List, String, Text, str_eq, inl, inr, ◌≡◌, refl, sym,
  ◌∙◌, subst, arith, eq_iff,
}
use infra_orch_studio.Server.Validation.{Checked}
use infra_orch_studio.Server.Domain.{Environment, Job}
use infra_orch_studio.Server.Runner.{
  stop_if, stop_on, Run, claimed, executing, succeeded, failed, claimed_job, rendered_job,
  with_log_dir, prepare_destroy_plan_job, destroy_in, with_plan_path, start_apply, apply_from,
  or_template, done_job, failed_job,
}
use infra_orch_studio.Server.World.{World, set_run, update_job}
use infra_orch_studio.Server.World.Kept.{update_job-IsSound, updated, set_run-IsSound}
use infra_orch_studio.Server.World.Marks.{only}
use infra_orch_studio.Server.World.Invariant.{
  IsSound, IsRunning, IsEnded, IsRun, is_unfinished, is_worked_on,
}

-- The runner's copy of a job keeps its identity while the runner works on it.
pub record IsSameJob (job job' : Job) : Type 0 where
  pub same_id : job'.id ≡ job.id
  pub same_environment : job'.environment_id ≡ job.environment_id
  pub same_status : job'.status ≡ job.status
  pub same_kind : job'.kind ≡ job.kind
  pub same_source : job'.source_job_id ≡ job.source_job_id

-- A check that passes.
stop_if_passed {ℓ} :
    {A : Type ℓ} (test : Bool) (message : Text) (rest : Checked A) {a : A}
    → stop_if test message rest ≡ inr a
    → rest ≡ inr a
unfolding stop_if
stop_if_passed true message rest h = cc
stop_if_passed false message rest h = h

stop_on_passed {ℓ κ} :
    {A : Type ℓ} {B : Type κ} (c : Checked A) (next : A → Checked B) {b : B}
    → stop_on c next ≡ inr b
    → (a : A) × (next a ≡ inr b)
unfolding stop_on
stop_on_passed (inl message) next h = cc
stop_on_passed (inr a) next h = (a, h)

only_right {ℓ κ} :
    {A : Type ℓ} (P : A → Type κ) {a b : A} → P a → ◌≡◌ {A = Checked A} (inr a) (inr b) → P b
only_right P p e = subst P (cc) p

pub rendered_job-IsSameJob :
    (show : ℕ → Text) (join : List Text → Text) (template_name : String) (dir : Text) (now : ℕ)
    (job : Job) {job' : Job}
    → rendered_job show join template_name dir now job ≡ inr job'
    → IsSameJob job job'
unfolding rendered_job with_log_dir
rendered_job-IsSameJob show join template_name dir now job h =
    let (_, e) = stop_on_passed _ _ (stop_if_passed _ _ _ h) in
    only_right (IsSameJob job)
      (record {
        same_id = refl;
        same_environment = refl;
        same_status = refl;
        same_kind = refl;
        same_source = refl;
      })
      e

pub prepare_destroy-IsSameJob :
    (join : List Text → Text) (template_name : String) (now : ℕ)
    (environments : String → Option Environment) (job : Job) {job' : Job}
    → prepare_destroy_plan_job join template_name now environments job ≡ inr job'
    → IsSameJob job job'
unfolding prepare_destroy_plan_job with_log_dir
prepare_destroy-IsSameJob join template_name now environments job h =
    from (environments job.environment_id) (stop_if_passed _ _ _ (stop_if_passed _ _ _ h))
  where
    from :
        (o : Option Environment) {job' : Job}
        → destroy_in join now (or_template template_name job) o ≡ inr job'
        → IsSameJob job job'
    from none e = cc
    from (some env) e =
        only_right (IsSameJob job)
          (record {
            same_id = refl;
            same_environment = refl;
            same_status = refl;
            same_kind = refl;
            same_source = refl;
          })
          (stop_if_passed _ _ _ e)

pub start_apply-IsSameJob :
    (join : List Text → Text) (now : ℕ) (jobs : String → Option Job) (job : Job) {job' : Job}
    → start_apply join now jobs job ≡ inr job'
    → IsSameJob job job'
unfolding start_apply with_log_dir
start_apply-IsSameJob join now jobs job h =
    from (jobs job.source_job_id) (stop_if_passed _ _ _ (stop_if_passed _ _ _ h))
  where
    from : (o : Option Job) {job' : Job} → apply_from join now job o ≡ inr job' → IsSameJob job job'
    from none e = cc
    from (some src) e =
        only_right (IsSameJob job)
          (record {
            same_id = refl;
            same_environment = refl;
            same_status = refl;
            same_kind = refl;
            same_source = refl;
          })
          (stop_if_passed _ _ _ (stop_if_passed _ _ _ e))

worked_on : (run : Option Run) (job : Job) → is_worked_on run ≡ true → is_unfinished run job ≡ true
worked_on run job e = ground arith

not_queued : (job : Job) → job.status ≡ "running" → str_eq job.status "queued" ≡ false
not_queued job e = rw e refl

module _ {w : World} (s : IsSound w) (id : String) where
  -- The runner goes on with a job that it works on.
  pub running-IsSound :
      (job job' : Job) (r : Run)
      → IsRunning w.environments w.jobs id job
      → is_worked_on (w.runs id) ≡ true
      → IsSameJob job job'
      → (IsRunning w.environments (update_job w job').jobs id job'
          → IsRun w.environments (update_job w job').jobs id r)
      → IsSound (set_run (update_job w job') id (some r))
  running-IsSound job job' r x on same go =
      update_job-IsSound s x.stored job' (same.same_id ∙ x.same_id)
        (same.same_environment ∙ sym x.owned) r (λ _. worked_on (w.runs id) x.row on)
        (go (record {
          row = job';
          stored =
              updated s x.stored job' (same.same_id ∙ x.same_id)
                (same.same_environment ∙ sym x.owned);
          running = same.same_status ∙ x.copy;
          owned = refl;
          same_id = same.same_id ∙ x.same_id;
          copy = same.same_status ∙ x.copy;
        }))

  -- The runner stores the end of a job.
  pub ended-IsSound :
      (job job' : Job) (r : Run)
      → IsRunning w.environments w.jobs id job
      → is_worked_on (w.runs id) ≡ true
      → job'.id ≡ job.id
      → job'.environment_id ≡ job.environment_id
      → str_eq job'.status "queued" ≡ false
      → (IsEnded w.environments (update_job w job').jobs id job'
          → IsRun w.environments (update_job w job').jobs id r)
      → IsSound (set_run (update_job w job') id (some r))
  ended-IsSound job job' r x on same_id owner over go =
      update_job-IsSound s x.stored job' (same_id ∙ x.same_id) (owner ∙ sym x.owned) r
        (λ _. worked_on (w.runs id) x.row on)
        (go (record {
          row = job';
          stored = updated s x.stored job' (same_id ∙ x.same_id) (owner ∙ sym x.owned);
          not_queued = over;
          owned = refl;
          same_id = same_id ∙ x.same_id;
        }))

  queued_unfinished :
      (run : Option Run) (job : Job) → job.status ≡ "queued" → is_unfinished run job ≡ true
  queued_unfinished run job e = ground (arith, eq_iff job.status "queued")

  pub claim-IsSound :
      (job : Job) (now : ℕ)
      → w.jobs id ≡ some job
      → job.status ≡ "queued"
      → IsSound
          (set_run (update_job w (claimed_job job now)) id (some (claimed (claimed_job job now))))
  unfolding claimed_job
  claim-IsSound job now stored queued =
      let same_id = s.job_ids id job stored in
      update_job-IsSound s stored (claimed_job job now) same_id refl _
        (λ _. queued_unfinished (w.runs id) job queued)
        (record {
          row = claimed_job job now;
          stored = updated s stored (claimed_job job now) same_id refl;
          running = refl;
          owned = refl;
          same_id = same_id;
          copy = refl;
        })

  pub write_plan-IsSound :
      (job : Job) (now : ℕ)
      → IsRunning w.environments w.jobs id job
      → is_worked_on (w.runs id) ≡ true
      → IsSound (
          set_run
            (update_job w (with_plan_path job now))
            id
            (some (executing (with_plan_path job now))))
  unfolding with_plan_path
  write_plan-IsSound job now x on =
      running-IsSound job (with_plan_path job now) _ x on
        (record {
          same_id = refl;
          same_environment = refl;
          same_status = refl;
          same_kind = refl;
          same_source = refl;
        })
        (λ y. y)

  pub finish-IsSound :
      (job : Job) (outputs : Text) (now : ℕ)
      → IsRunning w.environments w.jobs id job
      → is_worked_on (w.runs id) ≡ true
      → IsSound (
          set_run
            (update_job w (done_job job outputs now))
            id
            (some (succeeded (done_job job outputs now))))
  unfolding done_job
  finish-IsSound job outputs now x on =
      ended-IsSound job (done_job job outputs now) _ x on refl refl refl (λ y. y)

  pub fail-IsSound :
      (job : Job) (message : Text) (now : ℕ)
      → IsRunning w.environments w.jobs id job
      → is_worked_on (w.runs id) ≡ true
      → IsSound (
          set_run
            (update_job w (failed_job job message now))
            id
            (some (failed (failed_job job message now))))
  unfolding failed_job
  fail-IsSound job message now x on =
      ended-IsSound job (failed_job job message now) _ x on refl refl refl (λ y. y)

  -- The store refuses the failed job, and the runner takes it for failed nevertheless.
  pub fail_unstored-IsSound :
      (job : Job) (message : Text) (now : ℕ)
      → IsRunning w.environments w.jobs id job
      → IsSound (set_run w id (some (failed (failed_job job message now))))
  unfolding failed_job
  fail_unstored-IsSound job message now x = set_run-IsSound s id _ refl (λ r h.
      only (IsRun w.environments w.jobs id)
        (record {
          row = x.row;
          stored = x.stored;
          not_queued = not_queued x.row x.running;
          owned = x.owned;
          same_id = x.same_id;
        })
        h)
