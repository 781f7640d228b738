-- ===== src/Examples/Addresses.antt =====
-- Addresses of the pages of web/src/pages and of web/src/api.ts, on concrete inputs.
use infra_orch_studio.Common.{◌≡◌, refl, false, [], ◌∷◌, Text, units, some}
use infra_orch_studio.Examples.{evaluation}
use infra_orch_studio.Examples.Pages.{stage}
use infra_orch_studio.Js.Params
use infra_orch_studio.Js.Params.{Params}
use infra_orch_studio.Pages.Environments.{
  all, failing, build_search_params, search_of, filter_of, normalized,
}
use infra_orch_studio.Pages.Environments.Address.{build-read, normalized_settles}
use infra_orch_studio.Pages.Catalog.{normalize_tab_key, images}
use infra_orch_studio.Pages.Dashboard.{next_environment_route}
use infra_orch_studio.Shell.{route_key, review, dashboard, ws_path, ws_url, api_url}
use infra_orch_studio.Shell.Routes.{route_key-next_environment_route}

abbrev address : Params
address = (units "status", units "bogus") ∷ (units "page", units "2") ∷ (units "q", units " ") ∷ []

normalized_settles_example :
    (normalized (normalized address) ≡ normalized address)
    × (filter_of (normalized address) ≡ all)
    × (search_of (normalized address) ≡ [])
unfolding evaluation
normalized_settles_example = normalized_settles address

normalized_test : normalized address ≡ (units "page", units "2") ∷ []
unfolding evaluation
normalized_test = refl

build-read_example :
    (search_of (build_search_params address (units "edge") failing) ≡ units "edge")
    × (filter_of (build_search_params address (units "edge") failing) ≡ failing)
    × ((j : Text)
        → Params.get_all j (build_search_params address (units "edge") failing)
          ≡ Params.get_all j (build_search_params address (units "edge") failing))
unfolding evaluation
build-read_example = let (q, f, _) = build-read address (units "edge") failing in (q, f, λ j. refl)

route_key-next_environment_route_example :
    route_key (next_environment_route (stage "pending_approval" "not_requested" 1)) ≡ review
unfolding evaluation
route_key-next_environment_route_example =
    route_key-next_environment_route (stage "pending_approval" "not_requested" 1) (refl, refl, refl)

shell_tests :
    (route_key (units "/") ≡ dashboard)
    × (route_key (units "/environments/review") ≡ review)
    × (ws_path (units "/infra-orch-studio/api/") ≡ units "/infra-orch-studio/ws")
    × (api_url (units "/api") (units "/jobs") ≡ units "/api/jobs")
    × (ws_url false
          (units "host")
          (units "localhost:8080")
          (units "/api")
          (units "http://localhost:8080/api")
        ≡ units "ws://localhost:8080/ws")
    × (normalize_tab_key (some (units "volumes")) ≡ images)
unfolding evaluation
shell_tests = (refl, refl, refl, refl, refl, refl)
