-- ===== src/Api/Messages.antt =====
-- The bodies and the answers of the requests of web/src/api.ts. An answer is what the client is
-- typed to receive; a property that may be null or missing is an Option.
use infra_orch_studio.Common.{ℕ, Bool, Option, List, String}
use infra_orch_studio.Js.Object.{Object}
use infra_orch_studio.Api.{User, EnvironmentSpec, Job, Environment, AuditEvent, ReviewSignal}

pub data TemplateKind : Type 0 where
  environment module_kind : TemplateKind

pub record JobListResponse : Type 0 where
  pub items : List Job
  pub viewer : User

pub record JobLogItem : Type 0 where
  pub file : String
  pub message : String
  pub offset : ℕ
  pub truncated : Bool

pub record JobLogsResponse : Type 0 where
  pub job_id : String
  pub log_dir : Option String
  pub items : List JobLogItem

pub record EnvironmentListResponse : Type 0 where
  pub items : List Environment
  pub viewer : User

pub record EnvironmentMutationResponse : Type 0 where
  pub environment : Environment
  pub job : Option Job

pub record EnvironmentAuditResponse : Type 0 where
  pub items : List AuditEvent

pub record EnvironmentJobsResponse : Type 0 where
  pub items : List Job

pub record EnvironmentArtifactsResponse : Type 0 where
  pub environment_id : String
  pub workdir : Option String
  pub plan_path : Option String
  pub outputs_json : Option String
  pub last_plan_job : Option Job
  pub last_apply_job : Option Job

pub record AuditFeedResponse : Type 0 where
  pub items : List AuditEvent
  pub viewer : User
  pub resource_type : Option String
  pub resource_id : Option String
  pub limit : ℕ

pub record TemplateDescriptor : Type 0 where
  pub name : String
  pub path : String
  pub files : List String
  pub description : Option String

pub record TemplateCatalogResponse : Type 0 where
  pub viewer : User
  pub templates_root : String
  pub modules_root : String
  pub environment_sets : List TemplateDescriptor
  pub modules : List TemplateDescriptor

pub record ProviderConnection : Type 0 where
  pub name : String
  pub region : Option String
  pub auth_url : String
  pub interface : Option String
  pub identity_interface : Option String
  pub endpoint_override : Option (Object String String)

pub record ProviderListResponse : Type 0 where
  pub items : List ProviderConnection
  pub default_cloud : Option String

pub record ProviderUpsertRequest : Type 0 where
  pub name : String
  pub auth_url : String
  pub region_name : Option String
  pub interface : Option String
  pub identity_interface : Option String
  pub username : String
  pub password : String
  pub project_name : Option String
  pub project_id : Option String
  pub user_domain_name : Option String
  pub project_domain_name : Option String
  pub endpoint_override : Option (Object String String)

pub record ProviderPreflight : Type 0 where
  pub provider : String
  pub authenticated : Bool
  pub endpoints : Object String String
  pub missing_endpoints : Option (List String)
  pub checked_at : String
  pub ready_for_plan_apply : Bool

pub record TemplateValidation : Type 0 where
  pub kind : TemplateKind
  pub name : String
  pub path : String
  pub files : List String
  pub required_files : List String
  pub missing_files : List String
  pub warnings : List String
  pub valid : Bool
  pub description : Option String
  pub readme_exists : Bool

pub record TemplateDetailResponse : Type 0 where
  pub descriptor : TemplateDescriptor
  pub validation : TemplateValidation

pub record ImpactSummary : Type 0 where
  pub downtime : String
  pub blast_radius : String
  pub cost_delta : String

pub record EnvironmentPlanReviewResponse : Type 0 where
  pub review_signals : List ReviewSignal
  pub impact_summary : ImpactSummary
  pub plan_job : Option Job

pub record RequestDraftResponse : Type 0 where
  pub prompt : String
  pub template_name : String
  pub spec : EnvironmentSpec
  pub assumptions : List String
  pub warnings : List String
  pub next_step : String
  pub requires_review : Bool

pub record PublicConfig : Type 0 where
  pub allow_public_signup : Bool

pub record AdminProvisionUserRequest : Type 0 where
  pub email : String
  pub password : String
  pub is_admin : Option Bool

pub record AdminUserStatusRequest : Type 0 where
  pub disabled : Bool

pub record AdminUserPasswordRequest : Type 0 where
  pub password : String

pub record AdminUserRoleRequest : Type 0 where
  pub is_admin : Bool

pub record AdminUserListResponse : Type 0 where
  pub items : List User

pub record OverviewFailure : Type 0 where
  pub id : String
  pub name : String
  pub status : String
  pub last_error : Option String
  pub updated_at : Option String

pub record OverviewResponse : Type 0 where
  pub environments_total : ℕ
  pub pending_approval : ℕ
  pub approved_waiting_apply : ℕ
  pub applying : ℕ
  pub failed : ℕ
  pub active : ℕ
  pub destroyed : ℕ
  pub jobs_total : Option ℕ
  pub jobs_queued : Option ℕ
  pub jobs_running : Option ℕ
  pub jobs_done : Option ℕ
  pub jobs_failed : Option ℕ
  pub recent_failures : List OverviewFailure
