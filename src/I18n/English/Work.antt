-- ===== src/I18n/English/Work.antt =====
-- The English wording of web/src/i18n.tsx, on creating, reviewing, approving and changing an environment.
use infra_orch_studio.Common.{[], ◌∷◌}
use infra_orch_studio.I18n.{RequestChatCopy, CreateCopy, ReviewCopy, ApprovalCopy, DetailCopy}

abbrev pub request_chat : RequestChatCopy
request_chat = record {
  kicker = "Request chat (beta)";
  title = "Generate a structured request draft";
  draft_only = "Draft only";
  copy =
      "Describe the environment you want in natural language. The assistant only fills a draft and still sends you through plan review and approval.";
  prompt_label = "Request prompt";
  prompt_placeholder =
      "Example: Create a staging environment named payments-api for tenant finops with 2 ubuntu instances, medium flavor, web and db security groups, network 10.44.0.0/24 and subnet 10.44.0.0/26.";
  generate = "Generate request draft";
  generating = "Generating draft...";
  use_draft = "Use draft in wizard";
  assumptions = "Assumptions";
  warnings = "Warnings";
  next_step = "Next step";
  no_warnings = "No extra warnings were generated for this prompt.";
}

unfoldable pub create_copy : CreateCopy
create_copy = record {
  kicker = "Environment setup / 07 steps";
  title = "Create environment flow";
  copy =
      "Work through the desired-state inputs, persist a local draft when needed, then queue the initial plan and continue into review.";
  save_draft = "Save draft";
  saving_draft = "Saving draft...";
  exit_wizard = "Exit wizard";
  steps_title = "Wizard progress";
  current_step = "Current step";
  resolve_before_continue = "Resolve before continuing";
  back = "Back";
  continue = "Continue";
  queue_initial_plan = "Review plan";
  queueing_initial_plan = "Queueing initial plan...";
  refresh_review = "Refreshing review...";
  fix_review_errors = "Fix review errors";
  step_labels =
      "Template / Custom" ∷ "Tenant" ∷ "Name" ∷ "Network / Subnet" ∷ "Instances" ∷ "Security Refs"
      ∷ "Validate + Review" ∷ [];
  request_chat = request_chat;
}

unfoldable pub review_copy : ReviewCopy
review_copy = record {
  kicker = "Plan review";
  title = "Change evaluation / pre-apply";
  copy =
      "Review the latest environment plan, inspect inferred risk signals, and clear the approval gate only when the plan and impact look acceptable.";
  refresh = "Refresh";
  approval_control = "Approval control";
  environment_detail = "Environment detail";
  approve = "Approve";
  approving = "Approving...";
  apply = "Apply";
  applying = "Applying...";
  open_guarded_control = "Open guarded control";
  ack = "I reviewed all high-risk changes and warnings before approval.";
  approval_comment = "Approval comment";
  approval_placeholder = "Approval rationale, CAB reference, or operational note";
}

unfoldable pub approval_copy : ApprovalCopy
approval_copy = record {
  kicker = "Approval control";
  title = "Guarded production workflow";
  copy =
      "Use hard checkpoints before approval, apply, update, and destroy. This page adds explicit operator safety over the existing environment lifecycle APIs.";
  refresh = "Refresh";
  plan_review = "Plan review";
  environment_detail = "Environment detail";
  approval_comment = "Approval comment";
  approval_placeholder = "Why this plan is safe to approve";
  approve_request = "Approve request";
  approving = "Approving...";
  queue_update = "Queue guarded update";
  apply_approved = "Apply approved plan";
  applying = "Applying...";
  admin_approve_only = "Admin approval is required to clear this gate.";
  admin_apply_only = "Only admins can queue apply after approval.";
  typed_confirmation = "Typed confirmation";
  destroy_comment = "Destroy comment";
  destroy_placeholder = "Reason for destroy, incident, or change request reference";
  queue_destroy = "Queue destroy plan";
  queueing_destroy = "Queueing destroy...";
  destroy_disabled = "Destroy disabled";
  show_audit_timeline = "Show audit timeline";
  hide_audit_timeline = "Hide audit timeline";
}

unfoldable pub detail_copy : DetailCopy
detail_copy = record {
  kicker = "Detail";
  copy =
      "Track lifecycle state, queue guarded changes, and inspect plan, result, and audit evidence from one surface.";
  refresh = "Refresh";
  open_review = "Open review";
  approval_control = "Approval control";
  queue_update = "Queue update plan";
  queueing = "Queueing...";
  approve = "Approve";
  approving = "Approving...";
  apply_approved = "Apply approved plan";
  applying = "Applying...";
  open_destroy_control = "Open destroy control";
  retry = "Retry failed step";
  retrying = "Retrying...";
}
