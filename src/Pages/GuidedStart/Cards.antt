-- ===== src/Pages/GuidedStart/Cards.antt =====
-- What the four cards show of the answer of internal/api/overview.go.
use infra_orch_studio.Common.{ℕ, Bool, true, String, Text, units, truthy, text_eq, ◌≡◌, refl}
use infra_orch_studio.Js.Number.{Number}
use infra_orch_studio.Pages.GuidedStart.Values.{
  Json, number, array, object, Items, Fields, none_left, field, Shown,
}
use infra_orch_studio.Pages.GuidedStart.Search.{create, review, approval, result, stage_detail}

-- `overviewResponse`
pub record GoOverview : Type 0 where
  pub environments_total : Number
  pub pending_approval : Number
  pub approved_waiting_apply : Number
  pub applying : Number
  pub failed : Number
  pub active : Number
  pub destroyed : Number
  pub jobs_total : Number
  pub jobs_queued : Number
  pub jobs_running : Number
  pub jobs_done : Number
  pub jobs_failed : Number
  pub recent_failures : Items

abbrev count_field : String → Number → Fields → Fields
count_field name n rest = field (units name) (number n) rest

-- The JSON that the server writes.
unfoldable pub overview_json : GoOverview → Json
overview_json o = object (
    count_field "environments_total" o.environments_total (
      count_field "pending_approval" o.pending_approval (
        count_field "approved_waiting_apply" o.approved_waiting_apply (
          count_field "applying" o.applying (
            count_field "failed" o.failed (
              count_field "active" o.active (
                count_field "destroyed" o.destroyed (
                  count_field "jobs_total" o.jobs_total (
                    count_field "jobs_queued" o.jobs_queued (
                      count_field "jobs_running" o.jobs_running (
                        count_field "jobs_done" o.jobs_done (
                          count_field "jobs_failed" o.jobs_failed (
                            field (units "recent_failures") (array o.recent_failures)
                              none_left)))))))))))))

-- Of the answer of the server, the card of the creation shows the number of queued jobs, that of the
-- review the number of environments that wait for approval, that of the result the number of all
-- jobs, and that of the approval always its fallback, where a printed number is not empty.
pub overview_cards :
    (shown : Shown) (is_one : Number → Bool) (fuel : ℕ) (o : GoOverview) (fallback : Text)
    → ((n : Number) → truthy (shown.of_number n) ≡ true)
    → (stage_detail shown is_one fuel (overview_json o) create fallback
        ≡ shown.of_number o.jobs_queued)
      × (stage_detail shown is_one fuel (overview_json o) review fallback
          ≡ shown.of_number o.pending_approval)
      × (stage_detail shown is_one fuel (overview_json o) result fallback
          ≡ shown.of_number o.jobs_total)
      × (stage_detail shown is_one fuel (overview_json o) approval fallback ≡ fallback)
unfolding stage_detail overview_json text_eq
overview_cards shown is_one ℕ.zero o fallback printed = (
  rw (printed o.jobs_queued) refl,
  rw (printed o.pending_approval) refl,
  rw (printed o.jobs_total) refl,
  refl,
)
overview_cards shown is_one (ℕ.suc fuel) o fallback printed = (
  rw (printed o.jobs_queued) refl,
  rw (printed o.pending_approval) refl,
  rw (printed o.jobs_total) refl,
  refl,
)
