-- ===== src/Server/Changes.antt =====
-- What the handlers of internal/api/environments.go write: the changes of an environment, the jobs and
-- the event of the audit log.
use infra_orch_studio.Common.{ℕ, ◌+◌, none, some, List, [], String, given, str_eq, if◌then◌else◌}
use infra_orch_studio.Server.Validation.{GoSpec, normalize_environment_spec}
use infra_orch_studio.Server.Domain.{User, Environment, Job, Detail, AuditEvent}

-- `time.Now()` and `uuid.NewString()`, for the environment, the job and the event.
pub record Stamp : Type 0 where
  pub now : ℕ
  pub environment_id : String
  pub job_id : String
  pub audit_id : String

unfoldable pub reset_environment_attempt_state : Environment → Environment
reset_environment_attempt_state env = record env {
  approval_status = "not_requested";
  approved_at = none;
  approved_by_email = "";
  approved_by_user_id = "";
  last_error = [];
  workdir = [];
  plan_path = [];
  outputs_json = [];
  last_plan_job_id = "";
}

unfoldable pub bump_environment_revision : Environment → Environment
bump_environment_revision env = record env { revision = env.revision + 1 }

unfoldable pub new_audit_event :
    User → String → String → String → List (String × Detail) → Stamp → AuditEvent
new_audit_event user resource_id action message metadata stamp = record {
  id = stamp.audit_id;
  resource_type = "environment";
  resource_id = resource_id;
  action = action;
  actor_user_id = user.id;
  actor_email = user.email;
  message = message;
  metadata = metadata;
  created_at = stamp.now;
}

unfoldable pub new_environment_plan_job : Environment → String → String → Stamp → Job
new_environment_plan_job env template_name requested_by stamp = record {
  id = stamp.job_id;
  kind = "tofu.plan";
  status = "queued";
  created_at = stamp.now;
  updated_at = stamp.now;
  environment_id = env.id;
  operation = env.operation;
  environment = env.spec;
  template_name = if given template_name then template_name else "basic";
  workdir = [];
  log_dir = [];
  plan_path = [];
  outputs_json = [];
  source_job_id = "";
  retry_count = 0;
  max_retries = env.max_retries;
  requested_by = requested_by;
  error = [];
}

-- The environment that a new plan leaves.
unfoldable pub planned : Environment → GoSpec → String → Stamp → Environment
unfolding reset_environment_attempt_state bump_environment_revision
planned env spec operation stamp =
    record (bump_environment_revision (
      reset_environment_attempt_state (record env {
        spec = spec;
        name = spec.environment_name;
        operation = operation;
        status = "planning";
      }))) { updated_at = stamp.now; last_plan_job_id = stamp.job_id; last_job_id = stamp.job_id }

-- The environment that an approval leaves.
unfoldable pub approved : Environment → User → Stamp → Environment
unfolding bump_environment_revision
approved env user stamp =
    record (bump_environment_revision (record env {
      approval_status = "approved";
      status = "approved";
      approved_by_user_id = user.id;
      approved_by_email = user.email;
      approved_at = some stamp.now;
    })) { updated_at = stamp.now }

-- The environment and the job of an apply.
unfoldable pub applying : Environment → GoSpec → Stamp → Environment
unfolding bump_environment_revision
applying env spec stamp =
    record (bump_environment_revision (record env {
      spec = spec;
      status = "applying";
      last_apply_job_id = stamp.job_id;
      last_job_id = stamp.job_id;
    })) { updated_at = stamp.now }

unfoldable pub apply_job : Environment → GoSpec → Job → User → Stamp → Job
apply_job env spec plan_job user stamp = record {
  id = stamp.job_id;
  kind = "tofu.apply";
  status = "queued";
  created_at = stamp.now;
  updated_at = stamp.now;
  environment_id = env.id;
  operation = env.operation;
  environment = spec;
  template_name = plan_job.template_name;
  workdir = plan_job.workdir;
  log_dir = [];
  plan_path = plan_job.plan_path;
  outputs_json = [];
  source_job_id = plan_job.id;
  retry_count = 0;
  max_retries = env.max_retries;
  requested_by = user.email;
  error = [];
}

-- The job and the environment of a retry.
unfoldable pub retry_job : Job → User → Stamp → Job
retry_job last_job user stamp = record last_job {
  environment = normalize_environment_spec last_job.environment;
  id = stamp.job_id;
  status = "queued";
  created_at = stamp.now;
  updated_at = stamp.now;
  error = [];
  retry_count = last_job.retry_count + 1;
  requested_by = user.email;
}

unfoldable pub retried : Environment → Job → Stamp → Environment
unfolding reset_environment_attempt_state bump_environment_revision
retried env last_job stamp =
    record (bump_environment_revision (
      reset_environment_attempt_state (record env {
        retry_count = env.retry_count + 1;
        last_job_id = stamp.job_id;
        status = if str_eq last_job.kind "tofu.apply" then "applying" else "planning";
      }))) { updated_at = stamp.now }

-- The environment that a request to destroy leaves: the directory that was applied is kept.
unfoldable pub destroying : Environment → Stamp → Environment
unfolding reset_environment_attempt_state bump_environment_revision
destroying env stamp =
    record (bump_environment_revision
      (record (reset_environment_attempt_state (record env {
        spec = normalize_environment_spec env.spec;
        operation = "destroy";
        status = "planning";
      })) { workdir = env.workdir })) {
        updated_at = stamp.now;
        last_plan_job_id = stamp.job_id;
        last_job_id = stamp.job_id;
      }
