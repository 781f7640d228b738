-- ===== src/I18n/English.antt =====
-- The English wording of web/src/i18n.tsx.
pub mod Guides
pub mod Work
use infra_orch_studio.I18n.{
  NavCopy, ShellCopy, LoginCopy, DashboardCopy, EnvironmentsCopy, JobDetailCopy, TemplatesCopy,
  AuditCopy, UsersCopy, CopyShape,
}
use infra_orch_studio.I18n.English.Guides.{route_titles, guide_copy}
use infra_orch_studio.I18n.English.Work.{create_copy, review_copy, approval_copy, detail_copy}

abbrev pub nav : NavCopy
nav = record {
  dashboard = "Dashboard";
  guided_start = "Guided Start";
  environments = "Environments";
  create = "Create Flow";
  jobs = "Executions";
  templates = "Templates";
  audit = "Audit";
  users = "Users";
}

unfoldable pub shell_copy : ShellCopy
shell_copy = record {
  brand_title = "Infra Orch Studio";
  brand_subtitle = "Environment operations workspace";
  workflow_title = "Plan -> Approval -> Apply -> Result";
  workflow_hint = "Operate from environments first, then drill into execution detail.";
  nav = nav;
  logout = "Logout";
  topbar_kicker = "Environment operations";
  route_titles = route_titles;
}

unfoldable pub login_copy : LoginCopy
login_copy = record {
  title = "Infra Orch Studio";
  subtitle = "Operate plans, approvals, and environment changes from one console.";
  helper = "Session auth uses an httpOnly cookie. Passwords must be at least 8 characters.";
  login = "Login";
  signup = "Sign up";
  create_account = "Create account";
  email = "Email";
  password = "Password";
  api_base = "API base";
}

unfoldable pub dashboard_copy : DashboardCopy
dashboard_copy = record {
  kicker = "Environment overview";
  title = "Environment operations dashboard";
  copy =
      "Start from environment posture, then drill into approvals, failures, and recent lifecycle changes.";
  viewer = "Viewer";
  refresh = "Refresh";
}

unfoldable pub environments_copy : EnvironmentsCopy
environments_copy = record {
  kicker = "Environment list";
  title = "Environment posture";
  copy =
      "Filter lifecycle posture, review approvals, and open environment detail for guarded actions.";
  viewer = "Viewer";
  refresh = "Refresh";
  open_wizard = "Open wizard";
  quick_create = "Quick create";
  hide_quick_create = "Hide quick create";
}

unfoldable pub job_detail_copy : JobDetailCopy
job_detail_copy = record {
  kicker = "Job detail";
  title = "Execution chain";
  copy =
      "Inspect the execution record in environment context: source lineage, artifact pointers, live logs, and the next guarded action.";
  viewer = "Viewer";
  refresh = "Refresh";
  environment = "Environment";
  approval_control = "Approval control";
  apply_plan = "Apply plan";
  applying = "Applying...";
  ws_connected = "connected";
  ws_offline = "offline";
}

unfoldable pub templates_copy : TemplatesCopy
templates_copy = record {
  kicker = "Template management / renderer contract";
  title = "OpenTofu template catalog";
  copy =
      "Check which environment sets and shared modules are currently usable before queueing a plan.";
  refresh = "Refresh";
  validate_selected = "Validate selected";
  validating = "Validating...";
}

unfoldable pub audit_copy : AuditCopy
audit_copy = record {
  kicker = "Audit console / environment history";
  title = "Environment audit timeline";
  copy =
      "Review approval, apply, retry, and destroy history from a dedicated environment audit feed.";
  viewer = "Viewer";
  refresh = "Refresh";
}

unfoldable pub users_copy : UsersCopy
users_copy = record {
  kicker = "Admin onboarding / managed access";
  title = "User provisioning";
  copy =
      "Create managed user accounts after public signup has been disabled, then review the latest provisioning activity.";
  refresh = "Refresh";
  current_users = "Current users";
  create_user = "Create user";
  creating = "Creating user...";
  email = "Email";
  password = "Password";
  admin = "Admin access";
  recent_provisioning = "Recent provisioning activity";
  admin_only = "Only admins can provision users from this page.";
  no_users = "No managed users are available yet.";
  no_provisioning = "No user provisioning activity yet.";
  role_admin = "admin";
  role_user = "user";
  created_at = "Created";
  status_active = "active";
  status_disabled = "disabled";
  disable = "Disable";
  enable = "Re-enable";
  enabling = "Re-enabling...";
  disabling = "Disabling...";
  reset_password = "Reset password";
  resetting_password = "Resetting password...";
  password_for = "Password for";
  password_updated = "Updated password for";
  grant_admin = "Grant admin";
  revoke_admin = "Revoke admin";
  updating_role = "Updating role...";
}

unfoldable pub english : CopyShape
english = record {
  shell = shell_copy;
  login = login_copy;
  dashboard = dashboard_copy;
  environments = environments_copy;
  create = create_copy;
  review = review_copy;
  approval = approval_copy;
  detail = detail_copy;
  job_detail = job_detail_copy;
  templates = templates_copy;
  audit = audit_copy;
  users = users_copy;
  guide = guide_copy;
}
