-- ===== src/Pages/Environments.antt =====
-- web/src/pages/Environments.tsx: the list of environments, its search and its status filter, which
-- the page keeps in the query of its address, and the quick form.
pub mod Address
pub mod Form
use infra_orch_studio.Common.{
  ℕ, ◌+◌, Bool, true, false, not, ◌&&◌, ◌||◌, Option, none, some, List, [], ◌∷◌, ◌++◌, String, Text,
  units, truthy, given, str_eq, text_eq, if◌then◌else◌, any, keep, length, take,
}
use infra_orch_studio.Js.Text.{trim, to_lower, includes, join}
use infra_orch_studio.Js.Number.{of_ℕ}
use infra_orch_studio.Js.Params
use infra_orch_studio.Js.Params.{Params}
use infra_orch_studio.Api.{User, Environment, EnvironmentSpec}
use infra_orch_studio.UiCopy.{say}
use infra_orch_studio.Pages.Fetch.{
  Fetch, signed_out, failed, fetched, Answer, answered, refused, message_or,
}

pub data FilterKey : Type 0 where
  all pending_approval active failing planning applying : FilterKey

abbrev pub filter_text : FilterKey → Text
filter_text all = units "all"
filter_text pending_approval = units "pending_approval"
filter_text active = units "active"
filter_text failing = units "failed"
filter_text planning = units "planning"
filter_text applying = units "applying"

-- `FILTER_KEYS`
abbrev filter_keys : List FilterKey
filter_keys = all ∷ pending_approval ∷ active ∷ failing ∷ planning ∷ applying ∷ []

unfoldable pub filter_among : List FilterKey → Text → FilterKey
filter_among [] value = all
filter_among (key ∷ keys) value =
    if text_eq (filter_text key) value then key else filter_among keys value

unfoldable pub parse_filter_key : Option Text → FilterKey
unfolding filter_among
parse_filter_key none = all
parse_filter_key (some value) = if truthy value then filter_among filter_keys value else all

abbrev q_name : Text
q_name = units "q"

abbrev status_name : Text
status_name = units "status"

abbrev pub set_query : Text → Params → Params
set_query query ps =
    if truthy (trim query) then Params.set q_name query ps else Params.delete q_name ps

abbrev pub set_filter : FilterKey → Params → Params
set_filter all ps = Params.delete status_name ps
set_filter key ps = Params.set status_name (filter_text key) ps

unfoldable pub build_search_params : Params → Text → FilterKey → Params
build_search_params ps query filter = set_filter filter (set_query query ps)

-- `searchParams.get('q') || ''`, and the filter of the address.
unfoldable pub search_of : Params → Text
search_of ps = elim (Params.get q_name ps) [ none ↦ [] | some value ↦ value ]

unfoldable pub filter_of : Params → FilterKey
filter_of ps = parse_filter_key (Params.get status_name ps)

-- The address that the effect puts in place of `ps`, when it is another one.
unfoldable pub normalized : Params → Params
normalized ps = build_search_params ps (search_of ps) (filter_of ps)

-- The inputs of the search and of the filter.
unfoldable pub type_search : Params → Text → Params
type_search ps typed = build_search_params ps typed (filter_of ps)

unfoldable pub choose_filter : Params → Option Text → Params
choose_filter ps chosen = build_search_params ps (search_of ps) (parse_filter_key chosen)

unfoldable pub matches_filter : Environment → FilterKey → Bool
matches_filter item all = true
matches_filter item key = text_eq (units item.status) (filter_text key)

-- `[…].filter(Boolean)`
abbrev optional_text : Option String → Text
optional_text none = []
optional_text (some t) = units t

unfoldable pub haystack : Environment → Text
haystack item = to_lower (
    join (units " ") (
      keep truthy (
        units item.name
        ∷ item.spec.tenant_name
        ∷ optional_text item.created_by_email
        ∷ units item.status
        ∷ units item.approval_status
        ∷ units item.operation
        ∷ [])))

unfoldable pub is_found : Text → FilterKey → Environment → Bool
is_found search filter item =
    let query = to_lower (trim search) in
    matches_filter item filter && (not (truthy query) || includes query (haystack item))

unfoldable pub filtered : List Environment → Text → FilterKey → List Environment
filtered items search filter = keep (is_found search filter) items

pub record Summary : Type 0 where
  pub total : ℕ
  pub pending : ℕ
  pub failed : ℕ

unfoldable pub count_one : Summary → Environment → Summary
count_one base item = record base {
  pending = if str_eq item.status "pending_approval" then base.pending + 1 else base.pending;
  failed = if str_eq item.status "failed" then base.failed + 1 else base.failed;
}

unfoldable pub summary_from : Summary → List Environment → Summary
summary_from base [] = base
summary_from base (item ∷ items) = summary_from (count_one base item) items

unfoldable pub summary : List Environment → Summary
summary items = summary_from (record { total = length items; pending = 0; failed = 0 }) items

unfoldable pub immediate_actions : List Environment → List Environment
immediate_actions items = take 3 (
    keep (λ item. str_eq item.status "pending_approval" || str_eq item.approval_status "approved")
      items)

abbrev pub environment_route : String → String → Text
environment_route id suffix = units "/environments/" ++ (units id ++ units suffix)

unfoldable pub primary_route : Environment → Text
primary_route item =
    if str_eq item.status "pending_approval"
    then environment_route item.id "/review"
    else if str_eq item.approval_status "approved"
    then environment_route item.id "/approval"
    else environment_route item.id ""

unfoldable pub last_execution_result : Environment → Bool → Text
last_execution_result item ko =
    if str_eq item.status "failed"
    then say ko "실패" "failed"
    else if str_eq item.status "active" || str_eq item.status "destroyed"
    then say ko "성공" "success"
    else if str_eq item.status "planning"
        || str_eq item.status "applying"
        || str_eq item.status "destroying"
    then say ko "진행 중" "running"
    else if str_eq item.status "pending_approval" || str_eq item.status "approved"
    then say ko "승인 대기" "waiting approval"
    else say ko "대기" "queued"

unfoldable pub default_spec : EnvironmentSpec
default_spec = record {
  environment_name = units "demo";
  tenant_name = units "infra";
  network = record { name = units "demo-net"; cidr = units "10.0.0.0/24" };
  subnet = record {
    name = units "demo-subnet";
    cidr = units "10.0.0.0/24";
    gateway_ip = some (units "10.0.0.1");
    enable_dhcp = true;
  };
  instances =
      record {
        name = units "controller-1";
        image = units "ubuntu-22.04";
        flavor = units "m1.small";
        ssh_key_name = some (units "default");
        count = of_ℕ 1;
      }
      ∷ [];
  security_groups = none;
}
