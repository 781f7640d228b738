-- ===== src/Pages/Dashboard.antt =====
-- web/src/pages/Dashboard.tsx and Jobs.tsx: what the two overviews count and list.
pub mod Agree
use infra_orch_studio.Common.{
  ℕ, ◌+◌, Bool, true, false, not, ◌&&◌, Option, none, some, List, [], ◌∷◌, ◌++◌, String, Text,
  units, str_eq, if◌then◌else◌, keep, length, take, ltb, ◌==◌,
}
use infra_orch_studio.Api.{User, Environment, Job}
use infra_orch_studio.Pages.Fetch.{
  Fetch, signed_out, failed, fetched, Answer, answered, refused, message_or,
}

abbrev route : String → String → Text
route id suffix = units "/environments/" ++ (units id ++ units suffix)

unfoldable pub next_environment_route : Environment → Text
next_environment_route item =
    if str_eq item.status "pending_approval"
    then route item.id "/review"
    else if str_eq item.approval_status "approved"
    then route item.id "/approval"
    else route item.id ""

-- The counters of jobs in the answer of `overview.get`.
pub record Overview : Type 0 where
  pub jobs_queued : Option ℕ
  pub jobs_running : Option ℕ
  pub jobs_failed : Option ℕ

pub record Page : Type 0 where
  pub viewer : Option User
  pub items : List Environment
  pub overview_data : Option Overview
  pub error : Option Text

abbrev overview_of : Answer Overview → Option Overview
overview_of (refused _) = none
overview_of (answered live) = some live

-- `load`, once its requests are answered: the viewer of the list, and the answer of the overview.
unfoldable pub load : Fetch (List Environment × User × Answer Overview) → Page → Page
load signed_out page = record page { error = none }
load (failed me message) page = record page {
  viewer = some me;
  error = some (message_or "failed to load dashboard" message);
}
load (fetched me (items, viewer, live)) page = record page {
  viewer = some viewer;
  items = items;
  overview_data = overview_of live;
  error = none;
}

pub record Summary : Type 0 where
  pub total : ℕ
  pub active : ℕ
  pub review_ready : ℕ
  pub approved_waiting_apply : ℕ
  pub failed : ℕ

abbrev pub plus_if : Bool → ℕ → ℕ
plus_if test n = if test then n + 1 else n

unfoldable pub count_one : Summary → Environment → Summary
count_one base item = record base {
  active = plus_if (str_eq item.status "active") base.active;
  review_ready = plus_if (str_eq item.status "pending_approval") base.review_ready;
  approved_waiting_apply =
      plus_if (str_eq item.status "approved" && str_eq item.approval_status "approved")
        base.approved_waiting_apply;
  failed = plus_if (str_eq item.status "failed") base.failed;
}

unfoldable pub summary_from : Summary → List Environment → Summary
summary_from base [] = base
summary_from base (item ∷ items) = summary_from (count_one base item) items

unfoldable pub summary : List Environment → Summary
summary items =
    summary_from
      (record {
        total = length items;
        active = 0;
        review_ready = 0;
        approved_waiting_apply = 0;
        failed = 0;
      })
      items

unfoldable pub pending_approvals : List Environment → List Environment
pending_approvals items = take 5 (keep (λ item. str_eq item.status "pending_approval") items)

unfoldable pub incidents : List Environment → List Environment
incidents items = take 5 (keep (λ item. str_eq item.status "failed") items)

unfoldable pub recent : List Environment → List Environment
recent items = take 6 items

abbrev or_zero : Option ℕ → ℕ
or_zero none = 0
or_zero (some n) = n

pub record Backlog : Type 0 where
  pub queued : ℕ
  pub running : ℕ
  pub failed : ℕ

unfoldable pub job_backlog : Option Overview → Backlog
job_backlog none = record { queued = 0; running = 0; failed = 0 }
job_backlog (some o) = record {
  queued = or_zero o.jobs_queued;
  running = or_zero o.jobs_running;
  failed = or_zero o.jobs_failed;
}
