-- ===== src/Pages/Catalog.antt =====
-- web/src/pages/ProviderDetail.tsx and ProviderResourceDetail.tsx: the resources of a cloud, by tab,
-- and one of them. `TabKey` and `ResourceType` are the same union.
pub mod Links
use infra_orch_studio.Common.{
  ℕ, Bool, true, false, not, ◌&&◌, ◌||◌, Option, none, some, List, [], ◌∷◌, ◌++◌, String, Text,
  units, truthy, text_eq, if◌then◌else◌, keep, find, any, length,
}
use infra_orch_studio.Js.Text.{starts_with}
use infra_orch_studio.Js.Params
use infra_orch_studio.Js.Params.{Params}
use infra_orch_studio.Api.{ProviderCatalog, ProviderResourceDetail}
use infra_orch_studio.Options.{is_safe_provider_name}
use infra_orch_studio.Pages.Fetch.{Answer, answered, refused, message_or}

pub data TabKey : Type 0 where
  images flavors networks security_groups key_pairs instances : TabKey

abbrev pub tab_text : TabKey → Text
tab_text images = units "images"
tab_text flavors = units "flavors"
tab_text networks = units "networks"
tab_text security_groups = units "security_groups"
tab_text key_pairs = units "key_pairs"
tab_text instances = units "instances"

abbrev tab_keys : List TabKey
tab_keys = images ∷ flavors ∷ networks ∷ security_groups ∷ key_pairs ∷ instances ∷ []

-- `keys.includes(value) ? value : 'images'`
unfoldable pub tab_among : List TabKey → Text → TabKey
tab_among [] value = images
tab_among (key ∷ keys) value = if text_eq (tab_text key) value then key else tab_among keys value

-- `normalizeTabKey` and `normalizeResourceType`
unfoldable pub normalize_tab_key : Option Text → TabKey
unfolding tab_among
normalize_tab_key none = images
normalize_tab_key (some value) = tab_among tab_keys value

-- `details || []`
abbrev pub details_or_empty : Option (List ProviderResourceDetail) → List ProviderResourceDetail
details_or_empty none = []
details_or_empty (some details) = details

abbrev rows_of : ProviderCatalog → TabKey → List ProviderResourceDetail
rows_of catalog images = details_or_empty catalog.image_details
rows_of catalog flavors = details_or_empty catalog.flavor_details
rows_of catalog networks = details_or_empty catalog.network_details
rows_of catalog security_groups = details_or_empty catalog.security_group_details
rows_of catalog key_pairs = details_or_empty catalog.key_pair_details
rows_of catalog instances = details_or_empty catalog.instance_details

-- `rowsForTab` and `rowsForType`
unfoldable pub rows_for_tab : Option ProviderCatalog → TabKey → List ProviderResourceDetail
rows_for_tab none tab = []
rows_for_tab (some catalog) tab = rows_of catalog tab

abbrev is_required_error : Text → Bool
is_required_error item =
    starts_with (units "images:") item
    || starts_with (units "flavors:") item
    || starts_with (units "networks:") item

abbrev errors_of : Option ProviderCatalog → List Text
errors_of none = []
errors_of (some catalog) = elim catalog.errors [ none ↦ [] | some errors ↦ errors ]

unfoldable pub required_catalog_errors : Option ProviderCatalog → List Text
required_catalog_errors catalog = keep is_required_error (errors_of catalog)

-- The tab and the address after the effect, and after `selectTab`.
unfoldable pub tab_of : Params → TabKey
tab_of ps = normalize_tab_key (Params.get (units "tab") ps)

unfoldable pub select_tab : TabKey → Params → Params
select_tab tab ps = Params.set (units "tab") (tab_text tab) ps

pub record Page : Type 0 where
  pub catalog : Option ProviderCatalog
  pub error : Option Text
  pub busy : Bool

pub data Loaded : Type 0 where
  signed_out : Loaded
  resources : Answer ProviderCatalog → Loaded

abbrev load_with : String → Loaded → Page → Page
load_with fallback signed_out page = record page { error = none; busy = true }
load_with fallback (resources (refused message)) page = record {
  catalog = none;
  error = some (message_or fallback message);
  busy = false;
}
load_with fallback (resources (answered catalog)) page = record {
  catalog = some catalog;
  error = none;
  busy = false;
}

-- `load` of the two pages, once its requests are answered; a name that is not safe leaves the page.
unfoldable pub load_detail : Text → Loaded → Page → Page
load_detail name reply page =
    if is_safe_provider_name name
    then load_with "failed to load provider detail" reply page
    else page

unfoldable pub load_resource : Text → Loaded → Page → Page
load_resource name reply page =
    if is_safe_provider_name name
    then load_with "failed to load resource detail" reply page
    else page

-- The last part of the address of a row.
unfoldable pub row_id : ProviderResourceDetail → Text
row_id row = if truthy row.id then row.id else row.name

unfoldable pub is_named : Text → ProviderResourceDetail → Bool
is_named id row = text_eq row.id id || text_eq row.name id

-- `item` of the page of a resource.
unfoldable pub resource_item :
    Option ProviderCatalog → TabKey → Text → Option ProviderResourceDetail
resource_item catalog kind id = find (is_named id) (rows_for_tab catalog kind)
