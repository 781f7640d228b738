-- ===== src/Api.antt =====
-- The data of the HTTP API, as web/src/api.ts types it. An optional property is an `Option`.
-- What the client walks or trims is a `Text`; what it only compares, shows or sends is a native
-- `String`. `Job.environment`, of type `any`, is left out.
pub mod Messages
use infra_orch_studio.Common.{ℕ, Bool, Option, List, String, Text}
use infra_orch_studio.Js.Number.{Number}

pub record User : Type 0 where
  pub id : String
  pub email : String
  pub is_admin : Option Bool
  pub is_disabled : Option Bool
  pub created_at : Option String
  pub updated_at : Option String

pub record Network : Type 0 where
  pub name : Text
  pub cidr : Text

pub record Subnet : Type 0 where
  pub name : Text
  pub cidr : Text
  pub gateway_ip : Option Text
  pub enable_dhcp : Bool

pub record Instance : Type 0 where
  pub name : Text
  pub image : Text
  pub flavor : Text
  pub ssh_key_name : Option Text
  pub count : Number

pub record EnvironmentSpec : Type 0 where
  pub environment_name : Text
  pub tenant_name : Text
  pub network : Network
  pub subnet : Subnet
  pub instances : List Instance
  pub security_groups : Option (List Text)

pub record Job : Type 0 where
  pub id : String
  pub job_type : String
  pub status : String
  pub created_at : String
  pub updated_at : String
  pub environment_id : Option String
  pub operation : Option String
  pub template_name : Option String
  pub workdir : Option String
  pub log_dir : Option String
  pub plan_path : Option String
  pub source_job_id : Option String
  pub outputs_json : Option String
  pub retry_count : Option ℕ
  pub max_retries : Option ℕ
  pub requested_by : Option String
  pub error : Option String

pub record Environment : Type 0 where
  pub id : String
  pub name : String
  pub status : String
  pub operation : String
  pub approval_status : String
  pub spec : EnvironmentSpec
  pub created_by_user_id : Option String
  pub created_by_email : Option String
  pub approved_by_user_id : Option String
  pub approved_by_email : Option String
  pub approved_at : Option String
  pub last_plan_job_id : Option String
  pub last_apply_job_id : Option String
  pub last_job_id : Option String
  pub last_error : Option String
  pub retry_count : Option ℕ
  pub max_retries : Option ℕ
  pub workdir : Option String
  pub plan_path : Option String
  pub outputs_json : Option String
  pub revision : Option ℕ
  pub created_at : String
  pub updated_at : String

pub record AuditEvent : Type 0 where
  pub id : String
  pub resource_type : String
  pub resource_id : String
  pub action : String
  pub actor_user_id : Option String
  pub actor_email : Option String
  pub message : Option Text
  pub metadata_json : Option String
  pub created_at : String

pub record ProviderResourceDetail : Type 0 where
  pub id : Text
  pub name : Text
  pub attributes : Option (List (Text × Text))

pub record ProviderCatalog : Type 0 where
  pub provider : Text
  pub fetched_at : String
  pub images : List Text
  pub flavors : List Text
  pub networks : List Text
  pub security_groups : Option (List Text)
  pub key_pairs : Option (List Text)
  pub instances : List Text
  pub image_details : Option (List ProviderResourceDetail)
  pub flavor_details : Option (List ProviderResourceDetail)
  pub network_details : Option (List ProviderResourceDetail)
  pub security_group_details : Option (List ProviderResourceDetail)
  pub key_pair_details : Option (List ProviderResourceDetail)
  pub instance_details : Option (List ProviderResourceDetail)
  pub errors : Option (List Text)

pub data Severity : Type 0 where
  high medium low : Severity

pub record ReviewSignal : Type 0 where
  pub label : String
  pub detail : Text
  pub severity : Severity
