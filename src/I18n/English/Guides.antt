-- ===== src/I18n/English/Guides.antt =====
-- The English wording of web/src/i18n.tsx, of the titles and of the guide.
use infra_orch_studio.Common.{[], ◌∷◌, String}
use infra_orch_studio.Shell.{RouteKey}
use infra_orch_studio.I18n.{PageGuide, GuideCopy}

unfoldable pub route_titles : RouteKey → String
route_titles RouteKey.dashboard = "Dashboard"
route_titles RouteKey.guided_start = "Guided Start"
route_titles RouteKey.environments = "Environments"
route_titles RouteKey.create = "Create Environment"
route_titles RouteKey.environment_detail = "Environment Detail"
route_titles RouteKey.review = "Plan Review"
route_titles RouteKey.approval = "Approval Control"
route_titles RouteKey.jobs = "Executions"
route_titles RouteKey.job_detail = "Execution Detail"
route_titles RouteKey.templates = "Templates"
route_titles RouteKey.audit = "Audit"
route_titles RouteKey.users = "Users"

unfoldable pub pages : RouteKey → PageGuide
pages RouteKey.dashboard = record {
  summary = "Use this page to spot approvals, failures, and recent lifecycle changes first.";
  items =
      "Open blocked approvals from the approval panel."
      ∷ "Open failed environments from the incident panel."
      ∷ "Use recent lifecycle rows to jump into detail." ∷ [];
}
pages RouteKey.guided_start = record {
  summary = "Start here when you want the full workflow presented as a single low-friction cycle.";
  items =
      "Follow Create, Review, Approval, and Result in order."
      ∷ "Use the live overview when available."
      ∷ "Drop into the linked surface only when you need to act." ∷ [];
}
pages RouteKey.environments = record {
  summary = "Use filters to narrow lifecycle state, then open detail, review, or approval control.";
  items =
      "Search by environment, tenant, owner, or lifecycle."
      ∷ "Use quick create only for fast operator-driven plan requests."
      ∷ "Use row-level next steps to jump into the right surface." ∷ [];
}
pages RouteKey.create = record {
  summary =
      "Work through the wizard in order, then confirm review signals before creating the environment.";
  items =
      "Validate tenant, name, network, instance, and security inputs step by step."
      ∷ "Save draft if you need to pause the request."
      ∷ "Use the final review to confirm blast radius before queueing the first plan." ∷ [];
}
pages RouteKey.environment_detail = record {
  summary =
      "Track one environment as the primary operating object and open deeper controls only when needed.";
  items =
      "Use the summary and workflow sections to understand current state."
      ∷ "Open the desired-state editor only when preparing a new plan."
      ∷ "Use recent jobs, outputs, and audit entries as supporting evidence." ∷ [];
}
pages RouteKey.review = record {
  summary =
      "Use plan review to check risk, impact, and approval readiness before any apply action.";
  items =
      "Read review signals first." ∷ "Add approval context if the change should proceed."
      ∷ "Escalate to approval control only after the plan is understood." ∷ [];
}
pages RouteKey.approval = record {
  summary = "Use this page for guarded approval, apply, retry, and destroy actions.";
  items =
      "Confirm approval before apply." ∷ "Use typed confirmation for destructive actions."
      ∷ "Keep comments specific enough for later audit review." ∷ [];
}
pages RouteKey.jobs = record {
  summary =
      "Use executions when you need raw job history or direct access to a specific runner record.";
  items =
      "Prefer environment pages for lifecycle work."
      ∷ "Use the legacy form only for low-level operator testing."
      ∷ "Open job detail for logs, paths, and execution chains." ∷ [];
}
pages RouteKey.job_detail = record {
  summary = "Use job detail to inspect one execution record, linked paths, and structured outputs.";
  items =
      "Check linked environment and source job first."
      ∷ "Inspect logs and artifacts before retry decisions."
      ∷ "Jump back to review or approval when the job is environment-scoped." ∷ [];
}
pages RouteKey.templates = record {
  summary =
      "Use the catalog to confirm which templates and modules are actually visible to the server.";
  items =
      "Inspect environment sets before create or update plans."
      ∷ "Run validation after template changes."
      ∷ "Treat paths as runtime evidence, not as the primary UI." ∷ [];
}
pages RouteKey.audit = record {
  summary =
      "Use the audit feed to reconstruct approval, apply, retry, and destroy activity across environments.";
  items =
      "Filter by approvals, mutations, destroy, or failures."
      ∷ "Open linked environments from the feed when deeper context is needed."
      ∷ "Use metadata only as supporting detail after the human-readable event summary." ∷ [];
}
pages RouteKey.users = record {
  summary = "Use this page for managed onboarding when public signup is disabled.";
  items =
      "Create accounts only from an admin session."
      ∷ "Use admin access sparingly and record why it was needed."
      ∷ "Review recent provisioning entries after each onboarding change." ∷ [];
}

unfoldable pub guide_copy : GuideCopy
guide_copy = record {
  title = "Operator guide";
  cycle_title = "One-cycle guide";
  cycle_steps =
      "Create or update the desired state from an environment-first screen."
      ∷ "Review the generated plan and confirm impact before approval."
      ∷ "Record approval, then queue apply or destroy from the guarded control page."
      ∷ "Inspect artifacts, outputs, and audit events after execution finishes." ∷ [];
  page_title = "Current page";
  pages = pages;
}
