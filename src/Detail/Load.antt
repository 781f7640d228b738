-- ===== src/Detail/Load.antt =====
-- What else web/src/pages/EnvironmentDetail.tsx and ApprovalControl.tsx load and derive: templates,
-- providers, artifacts, lists of the latest, links, and the confirmation of an action.
use infra_orch_studio.Common.{
  ℕ, Bool, false, ◌&&◌, Option, none, some, List, [], ◌∷◌, ◌++◌, String, Text, units, given, str_eq,
  any, find, take, length, if◌then◌else◌,
}
use infra_orch_studio.Js.Object.{keys}
use infra_orch_studio.Api.{Environment, EnvironmentSpec, Job, AuditEvent, ProviderCatalog}
use infra_orch_studio.Validation.Wizard.{field_key, field_errors}
use infra_orch_studio.Pages.Fetch.{Answer, answered, refused}

pub record Artifacts : Type 0 where
  pub workdir : Option String
  pub plan_path : Option String
  pub outputs_json : Option String

-- The state of the detail page that its actions do not touch.
pub record Extra : Type 0 where
  pub template_items : List String
  pub selected_template : String
  pub provider_items : List String
  pub provider_name : String
  pub provider_catalog : Option ProviderCatalog
  pub editing_spec : Option EnvironmentSpec
  pub show_quick_actions : Bool
  pub show_artifacts : Bool
  pub show_audit_timeline : Bool
  pub artifacts : Option Artifacts

abbrev opt_str_eq : Option String → String → Bool
opt_str_eq none s = false
opt_str_eq (some t) s = str_eq t s

-- `jobs.find((item) => item.id === env.last_plan_job_id)`
unfoldable pub last_plan_job : Environment → List Job → Option Job
last_plan_job env jobs = find (λ item. opt_str_eq env.last_plan_job_id item.id) jobs

abbrev template_or_basic : Option String → String
template_or_basic none = "basic"
template_or_basic (some name) = if given name then name else "basic"

unfoldable pub plan_template : Option Job → String
plan_template none = "basic"
plan_template (some job) = template_or_basic job.template_name

abbrev templates_or_empty : Answer (List String) → List String
templates_or_empty (refused _) = []
templates_or_empty (answered names) = names

-- What a load that succeeds sets there.
unfoldable pub take_loaded :
    Environment → List Job → Artifacts → Answer (List String) → Extra → Extra
take_loaded env jobs artifacts templates x = record x {
  editing_spec = some env.spec;
  artifacts = some artifacts;
  template_items = templates_or_empty templates;
  selected_template = plan_template (last_plan_job env jobs);
}

abbrev first_or_empty : List String → String
first_or_empty [] = ""
first_or_empty (name ∷ _) = name

unfoldable pub preferred_cloud : Option String → List String → String
preferred_cloud none names = first_or_empty names
preferred_cloud (some cloud) names =
    if given cloud && any (λ name. str_eq name cloud) names then cloud else first_or_empty names

unfoldable pub take_providers : Answer (List String × Option String) → Extra → Extra
take_providers (refused _) x = record x { provider_items = []; provider_name = "" }
take_providers (answered (names, cloud)) x = record x {
  provider_items = names;
  provider_name = preferred_cloud cloud names;
}

-- The effect of another provider: without a name there is no catalog, and otherwise this name is
-- asked for.
unfoldable pub ask_catalog : Extra → Extra × Option String
ask_catalog x =
    if given x.provider_name
    then (x, some x.provider_name)
    else (record x { provider_catalog = none }, none)

unfoldable pub take_catalog : Answer ProviderCatalog → Extra → Extra
take_catalog (refused _) x = record x { provider_catalog = none }
take_catalog (answered catalog) x = record x { provider_catalog = some catalog }

-- The effect of another environment.
unfoldable pub fold_sections : Extra → Extra
fold_sections x = record x {
  show_quick_actions = false;
  show_artifacts = false;
  show_audit_timeline = false;
}

unfoldable pub recent_jobs : List Job → List Job
recent_jobs jobs = take 4 jobs

unfoldable pub recent_audit_items : List AuditEvent → List AuditEvent
recent_audit_items items = take 5 items

unfoldable pub update_error_count : Option EnvironmentSpec → ℕ
update_error_count none = 0
update_error_count (some spec) = length (keys (field_errors spec))

abbrev link_of : String → Option Environment → Text
link_of page none = []
link_of page (some e) = units "/environments/" ++ (units e.id ++ units page)

unfoldable pub review_route : Option Environment → Text
review_route environment = link_of "/review" environment

unfoldable pub approval_route : Option Environment → Text
approval_route environment = link_of "/approval" environment

-- `confirmPendingAction` of ApprovalControl.tsx: the action of the dialog that is open is run, and the
-- dialog is closed after it.
unfoldable pub confirm_pending {ℓ} : {A : Type ℓ} → Option A → Option A × Option A
confirm_pending none = (none, none)
confirm_pending (some execute) = (none, some execute)
