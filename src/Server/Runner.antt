-- ===== src/Server/Runner.antt =====
-- cmd/runner/main.go: the jobs and environments that the runner writes. What the renderer and OpenTofu
-- answer is a parameter of the step that uses it.
use infra_orch_studio.Common.{
  ℕ, ◌+◌, Bool, not, ◌&&◌, ◌||◌, Option, none, some, List, [], ◌∷◌, ◌++◌, String, Text, units,
  truthy, given, str_eq, inl, inr, if◌then◌else◌,
}
use infra_orch_studio.Server.Validation.{
  Checked, is_blank, normalize_environment_spec, validate_environment_spec,
}
use infra_orch_studio.Server.Domain.{Environment, Job, Detail, name, text, number, AuditEvent}
use infra_orch_studio.Server.Changes.{Stamp}

-- How far the runner is with a job: it has claimed, prepared or begun it, has stored its end, has
-- computed the environment behind it, or is about to log.
pub data Run : Type 0 where
  claimed : Job → Run
  prepared : Job → Run
  executing : Job → Run
  succeeded : Job → Run
  failed : Job → Run
  marking : Job → Environment → Run
  logging : AuditEvent → Run

-- `ClaimNextQueuedJob` of internal/storage/mysql/store.go, for the row that it chooses.
unfoldable pub claimed_job : Job → ℕ → Job
claimed_job job now = record job { status = "running"; updated_at = now }

-- `runnerJobLogDir`
unfoldable pub runner_job_log_dir : (List Text → Text) → Job → Text
runner_job_log_dir join job =
    if not (is_blank job.log_dir)
    then job.log_dir
    else if is_blank job.workdir
    then []
    else if is_blank (units job.id)
    then join (job.workdir ∷ units ".infra-orch" ∷ units "logs" ∷ [])
    else join (job.workdir ∷ units ".infra-orch" ∷ units "logs" ∷ units job.id ∷ [])

-- `job.LogDir = runnerJobLogDir(job)`, and the fields that are set with it.
unfoldable pub with_log_dir : (List Text → Text) → ℕ → Job → Job
with_log_dir join now job = record job {
  log_dir = runner_job_log_dir join job;
  error = [];
  updated_at = now;
}

-- `if test { failJob(…); continue }`, and what follows.
unfoldable pub stop_if {ℓ} : {A : Type ℓ} → Bool → Text → Checked A → Checked A
stop_if test message rest = if test then inl message else rest

unfoldable pub stop_on {ℓ κ} : {A : Type ℓ} {B : Type κ} → Checked A → (A → Checked B) → Checked B
stop_on (inl message) next = inl message
stop_on (inr a) next = next a

abbrev pub or_template : String → Job → Job
or_template template_name job = record job {
  template_name = if given job.template_name then job.template_name else template_name;
}

-- A plan that is no destroy: `dir` is the directory that `CreateWorkdir` answers with.
unfoldable pub rendered_job :
    (ℕ → Text) → (List Text → Text) → String → Text → ℕ → Job → Checked Job
rendered_job show join template_name dir now job =
    let spec = normalize_environment_spec job.environment in
    stop_if (str_eq job.kind "tofu.apply" || str_eq job.operation "destroy") (units "another path")
      (stop_on (validate_environment_spec show spec) λ _. inr (
        with_log_dir join now
          (record (or_template template_name job) { environment = spec; workdir = dir })))

-- `prepareDestroyPlanJob`
abbrev pub destroy_in : (List Text → Text) → ℕ → Job → Option Environment → Checked Job
destroy_in join now job none = inl (units "load environment for destroy plan")
destroy_in join now job (some env) =
    stop_if (is_blank env.workdir) (units "destroy plan requires an existing applied workdir")
      (inr (with_log_dir join now (record job { workdir = env.workdir })))

unfoldable pub prepare_destroy_plan_job :
    (List Text → Text) → String → ℕ → (String → Option Environment) → Job → Checked Job
prepare_destroy_plan_job join template_name now environments job =
    stop_if (str_eq job.kind "tofu.apply" || not (str_eq job.operation "destroy"))
      (units "another path")
      (stop_if (not (given job.environment_id)) (units "destroy plan job missing environment_id")
        (destroy_in join now (or_template template_name job) (environments job.environment_id)))

-- The path of the plan, which is stored before the plan is made.
unfoldable pub with_plan_path : Job → ℕ → Job
with_plan_path job now = record job {
  plan_path = units ".infra-orch/plan/plan.bin";
  updated_at = now;
}

-- The part of the loop for an apply: the directory and the plan are those of the source.
abbrev pub apply_from : (List Text → Text) → ℕ → Job → Option Job → Checked Job
apply_from join now job none = inl (units "failed to load source job")
apply_from join now job (some src) =
    stop_if (not (str_eq src.kind "tofu.plan") || not (str_eq src.status "done"))
      (units "source job must be done tofu.plan")
      (stop_if (not (truthy src.workdir) || not (truthy src.plan_path))
        (units "source job missing workdir/plan_path")
        (inr (
          with_log_dir join now (record job {
            workdir = src.workdir;
            plan_path = src.plan_path;
            template_name = src.template_name;
          }))))

unfoldable pub start_apply : (List Text → Text) → ℕ → (String → Option Job) → Job → Checked Job
start_apply join now jobs job =
    stop_if (not (str_eq job.kind "tofu.apply")) (units "another path") (
      stop_if (not (given job.source_job_id)) (units "apply job missing source_job_id")
        (apply_from join now job (jobs job.source_job_id)))

-- The end of a job. Only an apply that is no destroy has outputs.
unfoldable pub done_job : Job → Text → ℕ → Job
done_job job outputs now = record job {
  outputs_json =
      if str_eq job.kind "tofu.apply" && not (str_eq job.operation "destroy")
      then outputs
      else job.outputs_json;
  status = "done";
  error = [];
  updated_at = now;
}

-- The part of `failJob` for the job.
unfoldable pub failed_job : Job → Text → ℕ → Job
failed_job job message now = record job { status = "failed"; error = message; updated_at = now }

-- `env.LastJobID != "" && env.LastJobID != job.ID`
abbrev pub is_stale : Environment → Job → Bool
is_stale env job = given env.last_job_id && not (str_eq env.last_job_id job.id)

-- The part of `failJob` for the environment; `none` is a job that is ignored.
unfoldable pub fail_environment : Environment → Job → ℕ → Option Environment
fail_environment env job now =
    if is_stale env job
    then none
    else some (record env {
      status = "failed";
      last_error = job.error;
      last_job_id = job.id;
      revision = env.revision + 1;
      updated_at = now;
    })

-- The switch over the type of the job.
abbrev pub after_job : Job → Environment → Environment
after_job job env =
    if str_eq job.kind "tofu.plan"
    then record env {
      last_plan_job_id = job.id;
      status = "pending_approval";
      approval_status = "pending";
    }
    else if str_eq job.kind "tofu.apply"
    then record env {
      last_apply_job_id = job.id;
      status = if str_eq job.operation "destroy" then "destroyed" else "active";
    }
    else env

-- `recordRunnerEnvironmentSuccess`
unfoldable pub succeed_environment : Environment → Job → ℕ → Option Environment
succeed_environment env job now =
    if is_stale env job
    then none
    else some (
        after_job job (record env {
          last_job_id = job.id;
          last_error = [];
          workdir = job.workdir;
          plan_path = job.plan_path;
          outputs_json = job.outputs_json;
          revision = env.revision + 1;
          updated_at = now;
        }))

-- `recordSystemAudit`
unfoldable pub system_event : Stamp → String → String → String → List (String × Detail) → AuditEvent
system_event stamp resource_id action message metadata = record {
  id = stamp.audit_id;
  resource_type = "environment";
  resource_id = resource_id;
  action = action;
  actor_user_id = "";
  actor_email = "runner@system";
  message = message;
  metadata = metadata;
  created_at = stamp.now;
}

-- The events of a job that changed its environment, that was ignored, and that met a conflict.
unfoldable pub marked_event : Job → Environment → Stamp → AuditEvent
unfolding system_event
marked_event job env stamp =
    if str_eq job.status "failed"
    then system_event stamp env.id "job.failed" "runner marked environment failed"
        (("job_id", name job.id) ∷ ("error", text job.error) ∷ [])
    else system_event stamp env.id "job.succeeded" "runner updated environment state from job" (
        ("job_id", name job.id)
        ∷ ("job_type", name job.kind)
        ∷ ("operation", name job.operation)
        ∷ [])

unfoldable pub ignored_event : Job → Environment → Stamp → AuditEvent
unfolding system_event
ignored_event job env stamp =
    let metadata = ("job_id", name job.id) ∷ ("expected_id", name env.last_job_id) ∷ [] in
    if str_eq job.status "failed"
    then system_event stamp env.id "job.failed_ignored"
        "runner ignored stale failed job for environment state" metadata
    else system_event stamp env.id "job.succeeded_ignored"
        "runner ignored stale successful job for environment state" metadata

abbrev pub current_details : Option Environment → List (String × Detail)
current_details none = []
current_details (some current) =
    ("current_status", name current.status)
    ∷ ("current_revision", number current.revision)
    ∷ ("current_last_job", name current.last_job_id)
    ∷ []

abbrev pub attempted_details : Job → Environment → List (String × Detail)
attempted_details job env =
    ("attempted_status", name env.status)
    ∷ ("attempted_revision", number env.revision)
    ∷ ("attempted_last_job", name env.last_job_id)
    ∷ ("attempted_operation", name job.operation)
    ∷ []

unfoldable pub conflict_event : Job → Environment → Option Environment → Stamp → AuditEvent
unfolding system_event
conflict_event job env current stamp =
    if str_eq job.status "failed"
    then system_event stamp env.id "job.failed_conflict"
        "runner detected concurrent environment update while handling failed job"
        (("job_id", name job.id) ∷ attempted_details job env ++ current_details current)
    else system_event stamp env.id "job.succeeded_conflict"
        "runner detected concurrent environment update while handling successful job"
        (("job_id", name job.id)
          ∷ ("job_type", name job.kind)
          ∷ (attempted_details job env ++ current_details current))
