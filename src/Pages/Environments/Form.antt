-- ===== src/Pages/Environments/Form.antt =====
-- The loads and the quick form of web/src/pages/Environments.tsx.
use infra_orch_studio.Common.{
  Bool, true, false, ◌&&◌, Option, none, some, List, [], ◌∷◌, ◌++◌, String, Text, units, given,
  str_eq, any, if◌then◌else◌,
}
use infra_orch_studio.Api.{User, Environment, EnvironmentSpec, ProviderCatalog}
use infra_orch_studio.Pages.Fetch.{
  Fetch, signed_out, failed, fetched, Answer, answered, refused, message_or,
}
use infra_orch_studio.Pages.Environments.{default_spec}

pub record FormPage : Type 0 where
  pub items : List Environment
  pub viewer : Option User
  pub error : Option Text
  pub creating : Bool
  pub create_error : Option Text
  pub show_create : Bool
  pub spec : EnvironmentSpec
  pub template_items : List String
  pub selected_template : String
  pub provider_items : List String
  pub provider_name : String
  pub provider_catalog : Option ProviderCatalog

unfoldable pub initial_page : FormPage
initial_page = record {
  items = [];
  viewer = none;
  error = none;
  creating = false;
  create_error = none;
  show_create = false;
  spec = default_spec;
  template_items = [];
  selected_template = "basic";
  provider_items = [];
  provider_name = "";
  provider_catalog = none;
}

-- `load`, once its requests are answered.
unfoldable pub load_environments : Fetch (List Environment × User) → FormPage → FormPage
load_environments signed_out page = record page { error = none }
load_environments (failed me message) page = record page {
  viewer = some me;
  error = some (message_or "failed" message);
}
load_environments (fetched me (items, viewer)) page = record page {
  viewer = some viewer;
  items = items;
  error = none;
}

abbrev current_or_first : String → List String → String
current_or_first current [] = current
current_or_first current (name ∷ names) =
    if any (λ item. str_eq item current) (name ∷ names) then current else name

-- The callbacks of `templates.list()`.
unfoldable pub templates_listed : Answer (List String) → FormPage → FormPage
templates_listed (refused _) page = record page { template_items = []; selected_template = "basic" }
templates_listed (answered names) page = record page {
  template_items = names;
  selected_template = current_or_first page.selected_template names;
}

abbrev first_or_empty : List String → String
first_or_empty [] = ""
first_or_empty (name ∷ _) = name

unfoldable pub preferred_provider : Option String → List String → String
preferred_provider none names = first_or_empty names
preferred_provider (some cloud) names =
    if given cloud && any (λ name. str_eq name cloud) names then cloud else first_or_empty names

-- The callbacks of `providers.list()`, with the names and the default cloud.
unfoldable pub clouds_listed : Answer (List String × Option String) → FormPage → FormPage
clouds_listed (refused _) page = record page { provider_items = []; provider_name = "" }
clouds_listed (answered (names, cloud)) page = record page {
  provider_items = names;
  provider_name = preferred_provider cloud names;
}

-- The effect of another provider: without a name there is no catalog, and otherwise this name is
-- asked for.
unfoldable pub catalog_effect : FormPage → FormPage × Option String
catalog_effect page =
    if given page.provider_name
    then (page, some page.provider_name)
    else (record page { provider_catalog = none }, none)

unfoldable pub catalog_answered : Answer ProviderCatalog → FormPage → FormPage
catalog_answered (refused _) page = record page { provider_catalog = none }
catalog_answered (answered catalog) page = record page { provider_catalog = some catalog }

-- The submission of the form sends the spec and the template; the answer is the environment's id.
unfoldable pub submit_form : FormPage → FormPage × EnvironmentSpec × String
submit_form page =
    (record page { create_error = none; creating = true }, page.spec, page.selected_template)

unfoldable pub form_answered : Bool → Answer String → FormPage → FormPage × Option Text
form_answered ko (answered id) page = (
  record page { creating = false },
  some (units "/environments/" ++ (units id ++ units "/review")),
)
form_answered ko (refused message) page = (
  record page {
    create_error = some (
        if ko
        then message_or "환경 생성 실패" message
        else message_or "failed to create environment" message);
    creating = false;
  },
  none,
)
