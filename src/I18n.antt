-- ===== src/I18n.antt =====
-- web/src/i18n.tsx: the wording of the pages in two languages, and the choice of the language.
pub mod English
pub mod Korean
pub mod Provider
pub mod Keys
use infra_orch_studio.Common.{List, String}
use infra_orch_studio.Shell.{RouteKey}

-- `Record<…, string>` for the entries of the sidebar.
pub record NavCopy : Type 0 where
  pub dashboard : String
  pub guided_start : String
  pub environments : String
  pub create : String
  pub jobs : String
  pub templates : String
  pub audit : String
  pub users : String

pub record PageGuide : Type 0 where
  pub summary : String
  pub items : List String

pub record RequestChatCopy : Type 0 where
  pub kicker : String
  pub title : String
  pub draft_only : String
  pub copy : String
  pub prompt_label : String
  pub prompt_placeholder : String
  pub generate : String
  pub generating : String
  pub use_draft : String
  pub assumptions : String
  pub warnings : String
  pub next_step : String
  pub no_warnings : String

pub record ShellCopy : Type 0 where
  pub brand_title : String
  pub brand_subtitle : String
  pub workflow_title : String
  pub workflow_hint : String
  pub nav : NavCopy
  pub logout : String
  pub topbar_kicker : String
  pub route_titles : RouteKey → String

pub record LoginCopy : Type 0 where
  pub title : String
  pub subtitle : String
  pub helper : String
  pub login : String
  pub signup : String
  pub create_account : String
  pub email : String
  pub password : String
  pub api_base : String

pub record DashboardCopy : Type 0 where
  pub kicker : String
  pub title : String
  pub copy : String
  pub viewer : String
  pub refresh : String

pub record EnvironmentsCopy : Type 0 where
  pub kicker : String
  pub title : String
  pub copy : String
  pub viewer : String
  pub refresh : String
  pub open_wizard : String
  pub quick_create : String
  pub hide_quick_create : String

pub record CreateCopy : Type 0 where
  pub kicker : String
  pub title : String
  pub copy : String
  pub save_draft : String
  pub saving_draft : String
  pub exit_wizard : String
  pub steps_title : String
  pub current_step : String
  pub resolve_before_continue : String
  pub back : String
  pub continue : String
  pub queue_initial_plan : String
  pub queueing_initial_plan : String
  pub refresh_review : String
  pub fix_review_errors : String
  pub step_labels : List String
  pub request_chat : RequestChatCopy

pub record ReviewCopy : Type 0 where
  pub kicker : String
  pub title : String
  pub copy : String
  pub refresh : String
  pub approval_control : String
  pub environment_detail : String
  pub approve : String
  pub approving : String
  pub apply : String
  pub applying : String
  pub open_guarded_control : String
  pub ack : String
  pub approval_comment : String
  pub approval_placeholder : String

pub record ApprovalCopy : Type 0 where
  pub kicker : String
  pub title : String
  pub copy : String
  pub refresh : String
  pub plan_review : String
  pub environment_detail : String
  pub approval_comment : String
  pub approval_placeholder : String
  pub approve_request : String
  pub approving : String
  pub queue_update : String
  pub apply_approved : String
  pub applying : String
  pub admin_approve_only : String
  pub admin_apply_only : String
  pub typed_confirmation : String
  pub destroy_comment : String
  pub destroy_placeholder : String
  pub queue_destroy : String
  pub queueing_destroy : String
  pub destroy_disabled : String
  pub show_audit_timeline : String
  pub hide_audit_timeline : String

pub record DetailCopy : Type 0 where
  pub kicker : String
  pub copy : String
  pub refresh : String
  pub open_review : String
  pub approval_control : String
  pub queue_update : String
  pub queueing : String
  pub approve : String
  pub approving : String
  pub apply_approved : String
  pub applying : String
  pub open_destroy_control : String
  pub retry : String
  pub retrying : String

pub record JobDetailCopy : Type 0 where
  pub kicker : String
  pub title : String
  pub copy : String
  pub viewer : String
  pub refresh : String
  pub environment : String
  pub approval_control : String
  pub apply_plan : String
  pub applying : String
  pub ws_connected : String
  pub ws_offline : String

pub record TemplatesCopy : Type 0 where
  pub kicker : String
  pub title : String
  pub copy : String
  pub refresh : String
  pub validate_selected : String
  pub validating : String

pub record AuditCopy : Type 0 where
  pub kicker : String
  pub title : String
  pub copy : String
  pub viewer : String
  pub refresh : String

pub record UsersCopy : Type 0 where
  pub kicker : String
  pub title : String
  pub copy : String
  pub refresh : String
  pub current_users : String
  pub create_user : String
  pub creating : String
  pub email : String
  pub password : String
  pub admin : String
  pub recent_provisioning : String
  pub admin_only : String
  pub no_users : String
  pub no_provisioning : String
  pub role_admin : String
  pub role_user : String
  pub created_at : String
  pub status_active : String
  pub status_disabled : String
  pub disable : String
  pub enable : String
  pub enabling : String
  pub disabling : String
  pub reset_password : String
  pub resetting_password : String
  pub password_for : String
  pub password_updated : String
  pub grant_admin : String
  pub revoke_admin : String
  pub updating_role : String

pub record GuideCopy : Type 0 where
  pub title : String
  pub cycle_title : String
  pub cycle_steps : List String
  pub page_title : String
  pub pages : RouteKey → PageGuide

pub record CopyShape : Type 0 where
  pub shell : ShellCopy
  pub login : LoginCopy
  pub dashboard : DashboardCopy
  pub environments : EnvironmentsCopy
  pub create : CreateCopy
  pub review : ReviewCopy
  pub approval : ApprovalCopy
  pub detail : DetailCopy
  pub job_detail : JobDetailCopy
  pub templates : TemplatesCopy
  pub audit : AuditCopy
  pub users : UsersCopy
  pub guide : GuideCopy
