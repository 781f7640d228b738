-- ===== src/Create/Providers.antt =====
-- The choice of a provider in web/src/pages/CreateEnvironment.tsx, and the effect that loads the
-- catalog of the chosen one.
pub mod Late
use infra_orch_studio.Common.{
  Bool, true, false, Option, none, some, List, [], ◌∷◌, String, Text, given, str_eq, any, ◌&&◌,
  if◌then◌else◌, ◌≡◌, refl,
}
use infra_orch_studio.Api.{ProviderCatalog}
use infra_orch_studio.Create.{message_or}

pub record Choice : Type 0 where
  pub items : List String
  pub name : String
  pub catalog : Option ProviderCatalog
  pub busy : Bool
  pub error : Option Text

unfoldable pub first_name : List String → String
first_name [] = ""
first_name (name ∷ names) = name

-- `preferred`
unfoldable pub preferred : Option String → List String → String
preferred none names = first_name names
preferred (some cloud) names =
    if given cloud && any (λ name. str_eq name cloud) names then cloud else first_name names

-- An answer carries the name of the provider that was asked; the effect ignores it.
pub data ProviderEvent : Type 0 where
  providers_listed : (default_cloud : Option String) → List String → ProviderEvent
  providers_failed : ProviderEvent
  provider_selected : String → ProviderEvent
  resources_answered : (asked : String) → ProviderCatalog → ProviderEvent
  resources_failed : (asked : String) → (message : Option Text) → ProviderEvent

unfoldable pub handle_provider : Choice → ProviderEvent → Choice
handle_provider c (providers_listed cloud names) = record c {
  items = names;
  name = preferred cloud names;
}
handle_provider c providers_failed = record c { items = []; name = "" }
handle_provider c (provider_selected name) = record c { name = name }
handle_provider c (resources_answered asked catalog) = record c {
  catalog = some catalog;
  busy = false;
}
handle_provider c (resources_failed asked message) = record c {
  catalog = none;
  error = some (message_or "failed to load provider resources" message);
  busy = false;
}

-- The effect, which runs when the name has changed.
unfoldable pub provider_effect : Choice → Choice
provider_effect c = if given c.name then record c { busy = true; error = none } else c

unfoldable pub step_provider : Choice → ProviderEvent → Choice
step_provider c event =
    let next = handle_provider c event in
    if str_eq c.name next.name then next else provider_effect next

unfoldable pub run_provider : Choice → List ProviderEvent → Choice
run_provider c [] = c
run_provider c (event ∷ events) = run_provider (step_provider c event) events
