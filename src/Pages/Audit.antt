-- ===== src/Pages/Audit.antt =====
-- web/src/pages/Audit.tsx: the events of all environments, searched, filtered and counted. The time
-- of an event is its text as a date, a parameter.
pub mod Totals
pub mod Newest
use infra_orch_studio.Common.{
  ℕ, ◌+◌, Bool, true, false, not, ◌&&◌, ◌||◌, Option, none, some, List, [], ◌∷◌, ◌++◌, map, String,
  Text, units, truthy, str_eq, if◌then◌else◌, keep, find,
}
use infra_orch_studio.Js.Text.{trim, to_lower, includes, join}
use infra_orch_studio.Js.Sort.{sort_descending}
use infra_orch_studio.Api.{User, Environment, AuditEvent}
use infra_orch_studio.Pages.Fetch.{Fetch, signed_out, failed, fetched, message_or}

pub record AuditRecord : Type 0 where
  pub event : AuditEvent
  pub environment_name : Option String
  pub environment_status : Option String

pub data AuditFilter : Type 0 where
  everything approvals mutations destroy failures : AuditFilter

abbrev route : String → String → Text
route id suffix = units "/environments/" ++ (units id ++ units suffix)

abbrev route_of : String → Option Environment → Text
route_of id none = route id ""
route_of id (some environment) =
    if str_eq environment.status "pending_approval"
    then route id "/review"
    else if str_eq environment.approval_status "approved"
    then route id "/approval"
    else route id ""

unfoldable pub primary_environment_route : String → List Environment → Text
primary_environment_route id items = route_of id (find (λ item. str_eq item.id id) items)

abbrev name_of : Option Environment → Option String
name_of none = none
name_of (some environment) = some environment.name

abbrev status_of : Option Environment → Option String
status_of none = none
status_of (some environment) = some environment.status

unfoldable pub audit_record : List Environment → AuditEvent → AuditRecord
audit_record environments item =
    let environment = find (λ env. str_eq env.id item.resource_id) environments in
    let is_environment = str_eq item.resource_type "environment" in
    record {
      event = item;
      environment_name = if is_environment then name_of environment else none;
      environment_status = if is_environment then status_of environment else none;
    }

pub record Page : Type 0 where
  pub viewer : Option User
  pub environment_items : List Environment
  pub records : List AuditRecord
  pub search : Text
  pub filter : AuditFilter
  pub error : Option Text
  pub loading : Bool

module _ (time : String → ℕ) where
  unfoldable pub merged : List Environment → List AuditEvent → List AuditRecord
  merged environments events =
      sort_descending (λ r. time r.event.created_at) (map (audit_record environments) events)

  -- `load`, once its requests are answered.
  unfoldable pub load : Fetch (List Environment × List AuditEvent) → Page → Page
  load signed_out page = record page { loading = true; error = none }
  load (failed me message) page = record page {
    viewer = some me;
    error = some (message_or "failed to load audit records" message);
    loading = false;
  }
  load (fetched me (environments, events)) page = record page {
    viewer = some me;
    environment_items = environments;
    records = merged environments events;
    error = none;
    loading = false;
  }

abbrev pub says : String → AuditRecord → Bool
says part item = includes (units part) (units item.event.action)

-- The first four tests of the search.
unfoldable pub passes : AuditFilter → AuditRecord → Bool
passes everything item = true
passes approvals item = says "approved" item
passes mutations item = says "plan" item || says "apply" item
passes destroy item = says "destroy" item
passes failures item = says "failed" item

abbrev optional_units : Option String → Text
optional_units none = []
optional_units (some t) = units t

abbrev optional_text : Option Text → Text
optional_text none = []
optional_text (some t) = t

unfoldable pub haystack : AuditRecord → Text
haystack item = to_lower (
    join (units " ") (
      keep truthy (
        units item.event.action
        ∷ optional_units item.event.actor_email
        ∷ optional_text item.event.message
        ∷ optional_units item.environment_name
        ∷ optional_units item.environment_status
        ∷ [])))

unfoldable pub is_found : Text → AuditFilter → AuditRecord → Bool
is_found search filter item =
    let query = to_lower (trim search) in
    passes filter item && (not (truthy query) || includes query (haystack item))

unfoldable pub filtered : AuditFilter → List AuditRecord → Text → List AuditRecord
filtered filter records search = keep (is_found search filter) records

pub record Counts : Type 0 where
  pub total : ℕ
  pub approvals : ℕ
  pub destroy : ℕ
  pub failed : ℕ
  pub mutations : ℕ

abbrev pub plus_if : Bool → ℕ → ℕ
plus_if test n = if test then n + 1 else n

unfoldable pub count_one : Counts → AuditRecord → Counts
count_one acc item = record {
  total = acc.total + 1;
  approvals = plus_if (says "approved" item) acc.approvals;
  destroy = plus_if (says "destroy" item) acc.destroy;
  failed = plus_if (says "failed" item) acc.failed;
  mutations = plus_if (says "apply" item || says "plan" item) acc.mutations;
}

-- The loop of `counts`.
unfoldable pub counts_from : Counts → List AuditRecord → Counts
counts_from acc [] = acc
counts_from acc (item ∷ items) = counts_from (count_one acc item) items

unfoldable pub counts : List AuditRecord → Counts
counts items =
    counts_from (record { total = 0; approvals = 0; destroy = 0; failed = 0; mutations = 0 }) items
