-- ===== src/Pages/Dashboard/Agree.antt =====
-- What web/src/pages/Dashboard.tsx, Environments.tsx and Audit.tsx say of the same environments.
use infra_orch_studio.Common.{◌≡◌, refl, some, List, [], ◌∷◌, String, str_eq, find, arith}
use infra_orch_studio.Api.{Environment}
use infra_orch_studio.Pages.Environments
use infra_orch_studio.Pages.Environments.{primary_route}
use infra_orch_studio.Pages.Audit.{primary_environment_route}
use infra_orch_studio.Pages.Dashboard
use infra_orch_studio.Pages.Dashboard.{next_environment_route, pending_approvals, incidents}

same_link : (item : Environment) → primary_route item ≡ next_environment_route item
unfolding primary_route next_environment_route
same_link item = refl

-- The three pages lead from an environment to the same address: the list, the dashboard, and the
-- audit page, when the environment is the one that it knows under the identifier.
pub routes_agree :
    (id : String) (item : Environment) (items : List Environment)
    → find (λ e. str_eq e.id id) items ≡ some item
    → item.id ≡ id
    → (primary_route item ≡ next_environment_route item)
      × (primary_environment_route id items ≡ next_environment_route item)
unfolding primary_environment_route next_environment_route
routes_agree id item items known same = (same_link item, rw (known, ← same) refl)

abbrev pub SameCounts : Dashboard.Summary → Environments.Summary → Type 0
SameCounts d e = (d.total ≡ e.total) × (d.review_ready ≡ e.pending) × (d.failed ≡ e.failed)

summaries_from :
    (items : List Environment) (d : Dashboard.Summary) (e : Environments.Summary)
    → SameCounts d e
    → SameCounts (Dashboard.summary_from d items) (Environments.summary_from e items)
unfolding Dashboard.summary_from Environments.summary_from Dashboard.count_one
    Environments.count_one
summaries_from [] d e h = h
summaries_from (item ∷ items) d e h =
    summaries_from items (Dashboard.count_one d item) (Environments.count_one e item) (ground arith)

-- For the same environments the dashboard and the list show the same total, as many that wait for
-- approval, and as many that failed.
pub summaries_agree :
    (items : List Environment) → SameCounts (Dashboard.summary items) (Environments.summary items)
unfolding Dashboard.summary Environments.summary
summaries_agree items = summaries_from items _ _ (refl, refl, refl)
