-- ===== src/Examples.antt =====
-- Concrete inputs on which the theorems are applied and the definitions are run.
mod Validation
mod Form
mod Wizard
mod Pages
mod Badge
mod Addresses
mod Handlers
mod Overviews
mod Server
mod System
mod Guided
use infra_orch_studio.Actions.{
  message_or_failed, loaded_environment, begin, keep_retry, start_retry, catch_error, on_refused,
  on_answered, on_loaded,
}
use infra_orch_studio.Actions as ActionsDefs
use infra_orch_studio.Badge.{format_status_label, badge_class}
use infra_orch_studio.Badge as BadgeDefs
use infra_orch_studio.Common.{all_below}
use infra_orch_studio.Common.{text_eq}
use infra_orch_studio.Create.{
  take_preview, closure_of, is_live, answer_preview, same_dependencies, preview_effect, created,
  step_wizard, run_wizard,
}
use infra_orch_studio.Create as CreateDefs
use infra_orch_studio.Create.Providers.{
  first_name, preferred, handle_provider, provider_effect, step_provider, run_provider,
}
use infra_orch_studio.Create.{
  restore, choose_template, current_step_errors, current_step_blocked, can_create, use_draft,
}
use infra_orch_studio.Detail.{
  plan_step, approval_step, apply_step, result_step, build_workflow, is_admin, can_plan_update,
  can_destroy, can_approve, can_destroy_confirmed,
}
use infra_orch_studio.Detail as DetailDefs
use infra_orch_studio.Detail.Hint.{
  loading_hint, failed_hint, pending_hint, approved_hint, running_hint, active_hint, other_hint,
  next_action_hint,
}
use infra_orch_studio.Detail.Load.{
  last_plan_job, plan_template, take_loaded, preferred_cloud, take_providers, ask_catalog,
  take_catalog, fold_sections, recent_jobs, recent_audit_items, update_error_count, review_route,
  confirm_pending,
}
use infra_orch_studio.Detail.Load as DetailLoadDefs
use infra_orch_studio.I18n.English.{english}
use infra_orch_studio.I18n.English as I18nEnglishDefs
use infra_orch_studio.I18n.English.Guides as I18nEnglishGuidesDefs
use infra_orch_studio.I18n.English.Work as I18nEnglishWorkDefs
use infra_orch_studio.I18n.Korean.{korean}
use infra_orch_studio.I18n.Korean as I18nKoreanDefs
use infra_orch_studio.I18n.Korean.Guides as I18nKoreanGuidesDefs
use infra_orch_studio.I18n.Korean.Work as I18nKoreanWorkDefs
use infra_orch_studio.I18n.Provider.{read_stored, mount, set_locale}
use infra_orch_studio.Js.Number.{
  one, of_ℕ, bit_length, round, is_finite, is_integer, lt, is_nan, ge, add, whole,
}
use infra_orch_studio.Js.Number.Parse.{to_number}
use infra_orch_studio.Js.Object.{put}
use infra_orch_studio.Js.Object as JsObjectDefs
use infra_orch_studio.Js.Params.{get_all, delete, set}
use infra_orch_studio.Js.Params as JsParamsDefs
use infra_orch_studio.Js.Replace.{replace_first, replace_phrase}
use infra_orch_studio.Js.Sort.{insert, sort_descending}
use infra_orch_studio.Js.Text.{
  is_space, trim_start, trim, split_from, split_when, split, starts_with, ends_with, includes, join,
  to_lower,
}
use infra_orch_studio.Options.{
  unique_from, unique, or_empty, id_or_name, id_aware_options, name_options, provider_image_options,
  provider_flavor_options, provider_security_group_options, provider_key_pair_options,
  is_safe_provider_name,
}
use infra_orch_studio.Pages.Audit.{primary_environment_route, audit_record, merged, passes}
use infra_orch_studio.Pages.Audit as PagesAuditDefs
use infra_orch_studio.Pages.Catalog.{
  tab_among, normalize_tab_key, rows_for_tab, required_catalog_errors, tab_of, select_tab,
  load_detail, load_resource, row_id, is_named, resource_item,
}
use infra_orch_studio.Pages.Dashboard.{
  next_environment_route, pending_approvals, incidents, recent, job_backlog,
}
use infra_orch_studio.Pages.Dashboard as PagesDashboardDefs
use infra_orch_studio.Pages.Environments.{
  filter_among, parse_filter_key, build_search_params, search_of, filter_of, normalized,
  type_search, choose_filter, matches_filter, immediate_actions, primary_route,
  last_execution_result, default_spec,
}
use infra_orch_studio.Pages.Environments as PagesEnvironmentsDefs
use infra_orch_studio.Pages.Environments.Form.{
  initial_page, load_environments, templates_listed, preferred_provider, clouds_listed,
  catalog_effect, catalog_answered, submit_form, form_answered,
}
use infra_orch_studio.Pages.GuidedStart.Cards.{overview_json}
use infra_orch_studio.Pages.GuidedStart.Page.{end_load, cards}
use infra_orch_studio.Pages.GuidedStart.Search.{
  candidates, names_stage, entry_of, item_of, search_nested, match_stage_value, stage_detail,
}
use infra_orch_studio.Pages.GuidedStart.Values.{
  normalize_key, first_truthy, first_given, format_value,
}
use infra_orch_studio.Pages.GuidedStart.Values as PagesGuidedStartValuesDefs
use infra_orch_studio.Pages.JobDetail.{
  environment_route, snapshot_entry, with_snapshot, on_message, can_open_control, destination,
}
use infra_orch_studio.Pages.JobDetail as PagesJobDetailDefs
use infra_orch_studio.Pages.Jobs.{runner_may_be_idle, begin_plan, end_plan}
use infra_orch_studio.Pages.Jobs as PagesJobsDefs
use infra_orch_studio.Pages.Login.{sent}
use infra_orch_studio.Pages.Login as PagesLoginDefs
use infra_orch_studio.Pages.PlanReview.{
  detail_phrases, translate_detail, display_review_signal, is_waiting, approval_event,
}
use infra_orch_studio.Pages.PlanReview as PagesPlanReviewDefs
use infra_orch_studio.Pages.Providers.{
  initial_draft, openstack_interfaces, put_own, clouds_lines, build_clouds_snippet,
  is_known_interface, can_save, upsert_of, is_http_url, override_entries, parse_endpoint_override,
  save_provider,
}
use infra_orch_studio.Pages.Providers.Checks.{
  next_name, named_draft, list_providers, saved, reloaded, provider_name_valid, begin_preflight,
  end_preflight,
}
use infra_orch_studio.Pages.Providers.Checks as PagesProvidersChecksDefs
use infra_orch_studio.Pages.Templates.{select, listed}
use infra_orch_studio.Pages.Templates as PagesTemplatesDefs
use infra_orch_studio.Pages.Users.{
  own_admin_row, is_enabled, refresh, changed, release, seen, resume, visible_items,
}
use infra_orch_studio.Pages.Users as PagesUsersDefs
use infra_orch_studio.Requests.{method_of, path_of, expected_revision_of}
use infra_orch_studio.Requests.Clients.{client_method_of, query_of, audit_path, client_path_of}
use infra_orch_studio.Server.Access.{
  refuse_if, pass, or_bad_request, default_environment_plan_operation,
  validate_environment_plan_access, validate_environment_approval_access,
  validate_environment_apply_access, validate_environment_retry_access,
  validate_environment_destroy_access,
}
use infra_orch_studio.Server.Changes.{
  reset_environment_attempt_state, bump_environment_revision, new_audit_event,
  new_environment_plan_job, planned, approved, applying, apply_job, retry_job, retried, destroying,
}
use infra_orch_studio.Server.Go.{
  is_go_space, trim_left, trim_space, is_digit, decimal_from, parse_field, parse_addr4,
  parse_prefix4, masked, contains,
}
use infra_orch_studio.Server.Handlers.{
  decoded, decoded_or, create_environment, plan_environment, approve_environment, apply_environment,
  retry_environment, destroy_environment,
}
use infra_orch_studio.Server.Handlers as ServerHandlersDefs
use infra_orch_studio.Server.Lifecycle.{
  is_environment_busy, can_queue_plan, can_approve_plan, can_queue_apply, can_queue_destroy,
}
use infra_orch_studio.Server.Lifecycle as ServerLifecycleDefs
use infra_orch_studio.Server.Review.{instance_total, capacity_warning, review_signals, impact_of}
use infra_orch_studio.Server.Review as ServerReviewDefs
use infra_orch_studio.Server.Revision.{validate_expected_revision}
use infra_orch_studio.Server.Runner.{
  claimed_job, runner_job_log_dir, with_log_dir, stop_if, stop_on, rendered_job,
  prepare_destroy_plan_job, with_plan_path, start_apply, done_job, failed_job, fail_environment,
  succeed_environment, system_event, marked_event, ignored_event, conflict_event,
}
use infra_orch_studio.Server.Validation.{
  normalize_instance, normalize_environment_spec, parse_ipv4_prefix, check_instances, check_groups,
  check_gateway, check_network, validate_environment_spec, normalize_and_validate,
}
use infra_orch_studio.Server.Validation.Decode.{decode_instance, decode_spec}
use infra_orch_studio.Server.World.{update_environment, commit}
use infra_orch_studio.Server.World as ServerWorldDefs
use infra_orch_studio.Server.World.Approvals.{is_approval}
use infra_orch_studio.Shell.{
  route_key, defer_guide_panel, api_url, without_slash, ws_path, ws_url, req,
}
use infra_orch_studio.Shell.Dialog.{dialog_call, dialog_view}
use infra_orch_studio.Shell.Navigation.{entries, title, guide_place}
use infra_orch_studio.SpecForm.{
  patch_instance, update_instance, remove_at, join_security_groups, split_security_groups,
  toggle_security_group, new_instance, apply_input, is_offered,
}
use infra_orch_studio.UiCopy.{
  audit_actions, display_audit_action, audit_phrases, translate_phrases, summarize_audit_message,
}
use infra_orch_studio.UiCopy.{
  says_conflict, is_revision_conflict_error, short_job, conflict_changes, conflict_line,
  summarize_conflict_delta, operator_message, summarize_operator_error, error_looks_raw,
}
use infra_orch_studio.Validation.Cidr.{
  out_of_range, join_octets, octets_address, with_bits, parse_pieces, parse_ipv4_cidr,
  parse_ipv4_address, mask, cidr_contains, cidr_contains_address,
}
use infra_orch_studio.Validation.Cidr.RoundTrip.{show_address, show_cidr, four}
use infra_orch_studio.Validation.Wizard.{
  required, push, set_if, required_errors, entered_cidr, both_contain, cidr_errors, gateway_entered,
  gateway_address, gateway_inside, gateway_errors, group_errors, count_errors, blank_key,
  instance_errors, instances_errors, groups_of, field_errors, on_instances, step_keys, messages,
  fill_steps, empty_steps, step_errors, validate_for_wizard,
}
use infra_orch_studio.Validation.Wizard as ValidationWizardDefs
use infra_orch_studio.View.{
  empty_environment_spec, or_zero, instance_total_from, summarize_spec, security_signal,
  build_review_signals, downtime_of, cost_delta_of, build_impact_summary,
}
use infra_orch_studio.View.{
  build_approval_checkpoints, find_job, job_with_id, find_latest_plan_job, latest_approval_event,
}

-- What a test computes through.
pub evaluation : Unit {0}
unfolding message_or_failed ActionsDefs.begin_load ActionsDefs.load loaded_environment begin
    keep_retry start_retry ActionsDefs.start catch_error on_refused on_answered on_loaded
    ActionsDefs.step ActionsDefs.run BadgeDefs.label_map format_status_label badge_class all_below
    text_eq take_preview closure_of is_live answer_preview CreateDefs.handle same_dependencies
    preview_effect CreateDefs.settle created step_wizard run_wizard first_name preferred
    handle_provider provider_effect step_provider run_provider CreateDefs.initial restore
    choose_template current_step_errors current_step_blocked can_create use_draft plan_step
    approval_step apply_step result_step build_workflow is_admin can_plan_update
    DetailDefs.can_retry can_destroy can_approve DetailDefs.can_apply can_destroy_confirmed
    loading_hint failed_hint pending_hint approved_hint running_hint active_hint other_hint
    next_action_hint last_plan_job plan_template take_loaded preferred_cloud take_providers
    ask_catalog take_catalog fold_sections recent_jobs recent_audit_items update_error_count
    review_route DetailLoadDefs.approval_route confirm_pending I18nEnglishDefs.shell_copy
    I18nEnglishDefs.login_copy I18nEnglishDefs.dashboard_copy I18nEnglishDefs.environments_copy
    I18nEnglishDefs.job_detail_copy I18nEnglishDefs.templates_copy I18nEnglishDefs.audit_copy
    I18nEnglishDefs.users_copy english I18nEnglishGuidesDefs.route_titles
    I18nEnglishGuidesDefs.pages I18nEnglishGuidesDefs.guide_copy I18nEnglishWorkDefs.create_copy
    I18nEnglishWorkDefs.review_copy I18nEnglishWorkDefs.approval_copy
    I18nEnglishWorkDefs.detail_copy I18nKoreanDefs.shell_copy I18nKoreanDefs.login_copy
    I18nKoreanDefs.dashboard_copy I18nKoreanDefs.environments_copy I18nKoreanDefs.job_detail_copy
    I18nKoreanDefs.templates_copy I18nKoreanDefs.audit_copy I18nKoreanDefs.users_copy korean
    I18nKoreanGuidesDefs.route_titles I18nKoreanGuidesDefs.pages I18nKoreanGuidesDefs.guide_copy
    I18nKoreanWorkDefs.create_copy I18nKoreanWorkDefs.review_copy I18nKoreanWorkDefs.approval_copy
    I18nKoreanWorkDefs.detail_copy read_stored mount set_locale one of_ℕ bit_length round is_finite
    is_integer lt is_nan ge add whole to_number JsObjectDefs.get put JsParamsDefs.get get_all delete
    set replace_first replace_phrase insert sort_descending is_space trim_start trim split_from
    split_when split starts_with ends_with includes join to_lower unique_from unique or_empty
    id_or_name id_aware_options name_options provider_image_options provider_flavor_options
    provider_security_group_options provider_key_pair_options is_safe_provider_name
    primary_environment_route audit_record merged PagesAuditDefs.load passes PagesAuditDefs.haystack
    PagesAuditDefs.is_found PagesAuditDefs.filtered PagesAuditDefs.count_one
    PagesAuditDefs.counts_from PagesAuditDefs.counts tab_among normalize_tab_key rows_for_tab
    required_catalog_errors tab_of select_tab load_detail load_resource row_id is_named
    resource_item next_environment_route PagesDashboardDefs.load PagesDashboardDefs.count_one
    PagesDashboardDefs.summary_from PagesDashboardDefs.summary pending_approvals incidents recent
    job_backlog filter_among parse_filter_key build_search_params search_of filter_of normalized
    type_search choose_filter matches_filter PagesEnvironmentsDefs.haystack
    PagesEnvironmentsDefs.is_found PagesEnvironmentsDefs.filtered PagesEnvironmentsDefs.count_one
    PagesEnvironmentsDefs.summary_from PagesEnvironmentsDefs.summary immediate_actions primary_route
    last_execution_result default_spec initial_page load_environments templates_listed
    preferred_provider clouds_listed catalog_effect catalog_answered submit_form form_answered
    overview_json end_load cards candidates names_stage entry_of item_of search_nested
    match_stage_value stage_detail normalize_key PagesGuidedStartValuesDefs.get first_truthy
    first_given format_value environment_route PagesJobDetailDefs.approval_route
    PagesJobDetailDefs.initial snapshot_entry with_snapshot PagesJobDetailDefs.loaded on_message
    PagesJobDetailDefs.can_apply can_open_control PagesJobDetailDefs.step PagesJobDetailDefs.run
    destination PagesJobsDefs.load PagesJobsDefs.count_one PagesJobsDefs.counts_from
    PagesJobsDefs.counts runner_may_be_idle begin_plan end_plan PagesLoginDefs.initial
    PagesLoginDefs.settle PagesLoginDefs.handle PagesLoginDefs.step sent PagesLoginDefs.run
    PagesPlanReviewDefs.label_map detail_phrases translate_detail display_review_signal
    PagesPlanReviewDefs.load is_waiting approval_event initial_draft openstack_interfaces put_own
    clouds_lines build_clouds_snippet is_known_interface can_save upsert_of is_http_url
    override_entries parse_endpoint_override save_provider next_name named_draft
    PagesProvidersChecksDefs.begin_load list_providers saved reloaded provider_name_valid
    begin_preflight end_preflight PagesTemplatesDefs.initial select listed PagesTemplatesDefs.step
    PagesTemplatesDefs.run PagesUsersDefs.initial own_admin_row is_enabled refresh
    PagesUsersDefs.start changed release seen resume visible_items method_of path_of
    expected_revision_of client_method_of query_of audit_path client_path_of refuse_if pass
    or_bad_request default_environment_plan_operation validate_environment_plan_access
    validate_environment_approval_access validate_environment_apply_access
    validate_environment_retry_access validate_environment_destroy_access
    reset_environment_attempt_state bump_environment_revision new_audit_event
    new_environment_plan_job planned approved applying apply_job retry_job retried destroying
    is_go_space trim_left trim_space is_digit decimal_from parse_field parse_addr4 parse_prefix4
    masked contains decoded decoded_or ServerHandlersDefs.loaded create_environment plan_environment
    approve_environment apply_environment retry_environment destroy_environment is_environment_busy
    can_queue_plan can_approve_plan can_queue_apply can_queue_destroy ServerLifecycleDefs.can_retry
    ServerReviewDefs.total_from instance_total capacity_warning review_signals impact_of
    validate_expected_revision claimed_job runner_job_log_dir with_log_dir stop_if stop_on
    rendered_job prepare_destroy_plan_job with_plan_path start_apply done_job failed_job
    fail_environment succeed_environment system_event marked_event ignored_event conflict_event
    normalize_instance normalize_environment_spec parse_ipv4_prefix check_instances check_groups
    check_gateway check_network validate_environment_spec normalize_and_validate decode_instance
    decode_spec ServerWorldDefs.handle update_environment commit is_approval route_key
    defer_guide_panel api_url without_slash ws_path ws_url req dialog_call dialog_view entries title
    guide_place patch_instance update_instance remove_at join_security_groups split_security_groups
    toggle_security_group new_instance apply_input is_offered audit_actions display_audit_action
    audit_phrases translate_phrases summarize_audit_message says_conflict is_revision_conflict_error
    short_job conflict_changes conflict_line summarize_conflict_delta operator_message
    summarize_operator_error error_looks_raw out_of_range join_octets octets_address with_bits
    parse_pieces parse_ipv4_cidr parse_ipv4_address mask cidr_contains cidr_contains_address
    show_address show_cidr four required push set_if required_errors entered_cidr both_contain
    cidr_errors gateway_entered gateway_address gateway_inside gateway_errors group_errors
    ValidationWizardDefs.total_from count_errors blank_key instance_errors instances_errors
    groups_of field_errors on_instances step_keys messages fill_steps empty_steps step_errors
    validate_for_wizard empty_environment_spec or_zero instance_total_from summarize_spec
    security_signal build_review_signals downtime_of cost_delta_of build_impact_summary
    build_approval_checkpoints find_job job_with_id find_latest_plan_job latest_approval_event
evaluation = tt
