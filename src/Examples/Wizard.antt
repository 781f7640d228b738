-- ===== src/Examples/Wizard.antt =====
-- web/src/pages/CreateEnvironment.tsx on concrete events.
use infra_orch_studio.Common.{ℕ, ◌≡◌, refl, true, false, none, some, List, [], ◌∷◌, Text, units}
use infra_orch_studio.Examples.{evaluation}
use infra_orch_studio.Api.{ProviderCatalog, EnvironmentSpec}
use infra_orch_studio.SpecForm.{tenant_name}
use infra_orch_studio.View.{empty_environment_spec}
use infra_orch_studio.Validation.Wizard.Accepts.{IsAcceptable}
use infra_orch_studio.Create.{
  Wizard, initial, Event, signed_in, go_to, input, preview_answered, previewed, create_pressed,
  created, run_wizard,
}
use infra_orch_studio.Create.Providers.{
  Choice, ProviderEvent, provider_selected, resources_answered, run_provider,
}
use infra_orch_studio.Create.Providers.Late.{late_answer_wins}
use infra_orch_studio.Create.Review.Fresh.{IsFresh, Shows}
use infra_orch_studio.Create.Review.{review_shows_current, create_sends_reviewed}

abbrev show : ℕ → Text
show n = units "n"

-- The viewer goes to the review step, changes the tenant there to no avail, leaves it and comes
-- back; the second request is answered before the first.
abbrev events : List Event
events =
    signed_in
    ∷ go_to 6
    ∷ go_to 1
    ∷ input (tenant_name (units "tenant-b"))
    ∷ go_to 6
    ∷ preview_answered 1 (previewed [])
    ∷ preview_answered 0 (previewed [])
    ∷ []

abbrev edited : EnvironmentSpec
edited = record empty_environment_spec { tenant_name = units "tenant-b" }

run_tests :
    ((run_wizard show initial events).spec ≡ edited)
    × ((run_wizard show initial events).preview_loading ≡ false)
    × (created (run_wizard show initial (signed_in ∷ go_to 6 ∷ [])) create_pressed ≡ none)
unfolding evaluation
run_tests = (refl, refl, refl)

create_sends_reviewed_example :
    ((run_wizard show initial events).spec ≡ edited)
    × ((run_wizard show initial events).selected_template ≡ "basic")
    × IsAcceptable edited
    × Shows (run_wizard show initial events) (run_wizard show initial events).preview
unfolding evaluation
create_sends_reviewed_example = create_sends_reviewed show events edited "basic" refl

review_shows_current_example : IsFresh (run_wizard show initial events)
review_shows_current_example = review_shows_current show events

abbrev at_tenant : Wizard
at_tenant = record initial { viewer_ready = true; step = 1 }

abbrev catalog_of : Text → ProviderCatalog
catalog_of provider = record {
  provider = provider;
  fetched_at = "2026-01-01";
  images = [];
  flavors = [];
  networks = [];
  security_groups = none;
  key_pairs = none;
  instances = [];
  image_details = none;
  flavor_details = none;
  network_details = none;
  security_group_details = none;
  key_pair_details = none;
  instance_details = none;
  errors = none;
}

abbrev at_east : Choice
at_east = record {
  items = "east" ∷ "west" ∷ [];
  name = "east";
  catalog = none;
  busy = true;
  error = none;
}

abbrev late_events : List ProviderEvent
late_events =
    provider_selected "west"
    ∷ resources_answered "west" (catalog_of (units "west"))
    ∷ resources_answered "east" (catalog_of (units "east"))
    ∷ []

late_answer_example :
    ((run_provider at_east late_events).name ≡ "west")
    × ((run_provider at_east late_events).catalog ≡ some (catalog_of (units "east")))
late_answer_example =
    late_answer_wins at_east "west" (catalog_of (units "west")) (catalog_of (units "east"))
