-- ===== src/Requests/Clients.antt =====
-- The clients `auth`, `jobs`, `templates`, `providers`, `audit`, `overview` and `requestDrafts` of
-- web/src/api.ts, and the answer that each request of web/src/api.ts is typed to receive. The
-- encodings of a path segment and of a query value, which the browser provides, are parameters.
use infra_orch_studio.Common.{
  ℕ, ◌==◌, Option, none, some, List, [], ◌∷◌, ◌++◌, String, Text, units, truthy, given,
  if◌then◌else◌,
}
use infra_orch_studio.Js.Text.{join}
use infra_orch_studio.Api.{User, EnvironmentSpec, Job, Environment, ProviderCatalog}
use infra_orch_studio.Api.Messages.{
  TemplateKind, environment, module_kind, JobListResponse, JobLogsResponse, EnvironmentListResponse,
  EnvironmentMutationResponse, EnvironmentAuditResponse, EnvironmentJobsResponse,
  EnvironmentArtifactsResponse, AuditFeedResponse, TemplateCatalogResponse, TemplateDetailResponse,
  TemplateValidation, ProviderConnection, ProviderListResponse, ProviderUpsertRequest,
  ProviderPreflight, EnvironmentPlanReviewResponse, RequestDraftResponse, PublicConfig,
  AdminProvisionUserRequest, AdminUserStatusRequest, AdminUserPasswordRequest, AdminUserRoleRequest,
  AdminUserListResponse, OverviewResponse,
}
use infra_orch_studio.Requests.{Request, Method}

-- The parameters of `audit.list`.
pub record AuditQuery : Type 0 where
  pub limit : Option ℕ
  pub resource_type : Option String
  pub resource_id : Option String

pub data ClientRequest : Type 0 where
  public_config logout me list_users : ClientRequest
  signup login : (email password : String) → ClientRequest
  create_user : AdminProvisionUserRequest → ClientRequest
  set_user_disabled : (id : String) → AdminUserStatusRequest → ClientRequest
  set_user_role : (id : String) → AdminUserRoleRequest → ClientRequest
  reset_user_password : (id : String) → AdminUserPasswordRequest → ClientRequest
  list_jobs : (limit : ℕ) → ClientRequest
  get_job get_job_logs apply_job : (id : String) → ClientRequest
  create_job : EnvironmentSpec → (type : Option String) → ClientRequest
  list_templates : ClientRequest
  get_template validate_template : TemplateKind → (name : String) → ClientRequest
  list_providers : ClientRequest
  upsert_provider : ProviderUpsertRequest → ClientRequest
  provider_resources provider_preflight : (name : String) → ClientRequest
  list_audit : Option AuditQuery → ClientRequest
  get_overview : ClientRequest
  generate_draft : (prompt : Text) → ClientRequest

-- `jobs.plan` is a job of a fixed type.
abbrev pub plan_job : EnvironmentSpec → ClientRequest
plan_job spec = create_job spec (some "tofu.plan")

-- The type argument of `req` in the `environments` client.
abbrev pub Reply : Request → Type 0
Reply (Request.list _) = EnvironmentListResponse
Reply (Request.get _) = Environment
Reply (Request.create _ _) = EnvironmentMutationResponse
Reply (Request.plan _ _ _ _ _) = EnvironmentMutationResponse
Reply (Request.approve _ _ _) = Environment
Reply (Request.apply _ _) = EnvironmentMutationResponse
Reply (Request.retry _ _) = EnvironmentMutationResponse
Reply (Request.destroy _ _ _ _) = EnvironmentMutationResponse
Reply (Request.audit _) = EnvironmentAuditResponse
Reply (Request.jobs _) = EnvironmentJobsResponse
Reply (Request.artifacts _) = EnvironmentArtifactsResponse
Reply (Request.plan_review _) = EnvironmentPlanReviewResponse
Reply (Request.preview_plan_review _ _ _) = EnvironmentPlanReviewResponse

-- The type argument of `req` in the other clients.
abbrev pub ClientReply : ClientRequest → Type 0
ClientReply public_config = PublicConfig
ClientReply (signup _ _) = User
ClientReply (login _ _) = User
ClientReply logout = Unit {0}
ClientReply me = User
ClientReply list_users = AdminUserListResponse
ClientReply (create_user _) = User
ClientReply (set_user_disabled _ _) = User
ClientReply (set_user_role _ _) = User
ClientReply (reset_user_password _ _) = User
ClientReply (list_jobs _) = JobListResponse
ClientReply (get_job _) = Job
ClientReply (get_job_logs _) = JobLogsResponse
ClientReply (create_job _ _) = Job
ClientReply (apply_job _) = Job
ClientReply list_templates = TemplateCatalogResponse
ClientReply (get_template _ _) = TemplateDetailResponse
ClientReply (validate_template _ _) = TemplateValidation
ClientReply list_providers = ProviderListResponse
ClientReply (upsert_provider _) = ProviderConnection
ClientReply (provider_resources _) = ProviderCatalog
ClientReply (provider_preflight _) = ProviderPreflight
ClientReply (list_audit _) = AuditFeedResponse
ClientReply get_overview = OverviewResponse
ClientReply (generate_draft _) = RequestDraftResponse

unfoldable pub client_method_of : ClientRequest → Method
client_method_of public_config = Method.get
client_method_of me = Method.get
client_method_of list_users = Method.get
client_method_of (list_jobs _) = Method.get
client_method_of (get_job _) = Method.get
client_method_of (get_job_logs _) = Method.get
client_method_of list_templates = Method.get
client_method_of (get_template _ _) = Method.get
client_method_of list_providers = Method.get
client_method_of (provider_resources _) = Method.get
client_method_of (list_audit _) = Method.get
client_method_of get_overview = Method.get
client_method_of _ = Method.post

abbrev kind_text : TemplateKind → Text
kind_text environment = units "environment"
kind_text module_kind = units "module"

-- `<prefix><id><suffix>`
abbrev pub around : String → Text → String → Text
around prefix middle suffix = units prefix ++ (middle ++ units suffix)

-- `if (value) query.set(name, value)`
abbrev text_pair : (Text → Text) → String → Option String → List Text
text_pair encode name none = []
text_pair encode name (some value) =
    if given value then (units name ++ (b'=' ∷ encode (units value))) ∷ [] else []

module _ (show : ℕ → Text) (encode_segment encode_query : Text → Text) where
  abbrev limit_pair : Option ℕ → List Text
  limit_pair none = []
  limit_pair (some limit) =
      if limit == 0 then [] else (units "limit=" ++ encode_query (show limit)) ∷ []

  -- `query.toString()`
  unfoldable pub query_of : Option AuditQuery → Text
  query_of none = []
  query_of (some query) = join (units "&") (
      limit_pair query.limit
      ++ (text_pair encode_query "resource_type" query.resource_type
          ++ text_pair encode_query "resource_id" query.resource_id))

  unfoldable pub audit_path : Option AuditQuery → Text
  audit_path query =
      let suffix = query_of query in units "/audit" ++ (if truthy suffix then b'?' ∷ suffix else [])

  unfoldable pub client_path_of : ClientRequest → Text
  client_path_of public_config = units "/public-config"
  client_path_of (signup _ _) = units "/auth/signup"
  client_path_of (login _ _) = units "/auth/login"
  client_path_of logout = units "/auth/logout"
  client_path_of me = units "/auth/me"
  client_path_of list_users = units "/admin/users"
  client_path_of (create_user _) = units "/admin/users"
  client_path_of (set_user_disabled id _) = around "/admin/users/" (units id) "/disable"
  client_path_of (set_user_role id _) = around "/admin/users/" (units id) "/role"
  client_path_of (reset_user_password id _) = around "/admin/users/" (units id) "/password"
  client_path_of (list_jobs limit) = units "/jobs?limit=" ++ show limit
  client_path_of (get_job id) = around "/jobs/" (units id) ""
  client_path_of (get_job_logs id) = around "/jobs/" (units id) "/logs"
  client_path_of (create_job _ _) = units "/jobs"
  client_path_of (apply_job id) = around "/jobs/" (units id) "/apply"
  client_path_of list_templates = units "/templates"
  client_path_of (get_template kind name) =
      around "/templates/" (kind_text kind ++ (b'/' ∷ units name)) ""
  client_path_of (validate_template kind name) =
      around "/templates/" (kind_text kind ++ (b'/' ∷ units name)) "/validate"
  client_path_of list_providers = units "/providers"
  client_path_of (upsert_provider _) = units "/providers"
  client_path_of (provider_resources name) =
      around "/providers/" (encode_segment (units name)) "/resources"
  client_path_of (provider_preflight name) =
      around "/providers/" (encode_segment (units name)) "/preflight"
  client_path_of (list_audit query) = audit_path query
  client_path_of get_overview = units "/overview"
  client_path_of (generate_draft _) = units "/request-drafts"
