-- ===== src/Server/Domain.antt =====
-- internal/domain/environment_resource.go, job.go, user.go and audit.go: what the server stores. A
-- time is a number, and the metadata of an event is kept as a list in place of its JSON.
use infra_orch_studio.Common.{ℕ, Bool, Option, List, String, Text}
use infra_orch_studio.Server.Validation.{GoSpec}

pub record User : Type 0 where
  pub id : String
  pub email : String
  pub is_admin : Bool

pub record Environment : Type 0 where
  pub id : String
  pub name : Text
  pub status : String
  pub operation : String
  pub approval_status : String
  pub spec : GoSpec
  pub created_by_user_id : String
  pub created_by_email : String
  pub approved_by_user_id : String
  pub approved_by_email : String
  pub approved_at : Option ℕ
  pub last_plan_job_id : String
  pub last_apply_job_id : String
  pub last_job_id : String
  pub last_error : Text
  pub retry_count : ℕ
  pub max_retries : ℕ
  pub workdir : Text
  pub plan_path : Text
  pub outputs_json : Text
  pub revision : ℕ
  pub created_at : ℕ
  pub updated_at : ℕ

pub record Job : Type 0 where
  pub id : String
  pub kind : String
  pub status : String
  pub created_at : ℕ
  pub updated_at : ℕ
  pub environment_id : String
  pub operation : String
  pub environment : GoSpec
  pub template_name : String
  pub workdir : Text
  pub log_dir : Text
  pub plan_path : Text
  pub outputs_json : Text
  pub source_job_id : String
  pub retry_count : ℕ
  pub max_retries : ℕ
  pub requested_by : String
  pub error : Text

-- A value of the metadata of an event.
pub data Detail : Type 0 where
  name : String → Detail
  text : Text → Detail
  number : ℕ → Detail

pub record AuditEvent : Type 0 where
  pub id : String
  pub resource_type : String
  pub resource_id : String
  pub action : String
  pub actor_user_id : String
  pub actor_email : String
  pub message : String
  pub metadata : List (String × Detail)
  pub created_at : ℕ
