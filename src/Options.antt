-- ===== src/Options.antt =====
-- web/src/utils/providerCatalogOptions.ts and providerNames.ts: the choices offered from a provider.
pub mod Laws
use infra_orch_studio.Common.{
  ℕ, Bool, true, false, not, ◌&&◌, ◌||◌, Option, none, some, List, [], ◌∷◌, ◌++◌, map, Text, units,
  text_eq, truthy, leb, ◌==◌, if◌then◌else◌, any, all,
}
use infra_orch_studio.Js.Text.{trim}
use infra_orch_studio.Api.{ProviderCatalog, ProviderResourceDetail}

-- `seen.has(value)`, and `items.includes(value)`
abbrev pub has : List Text → Text → Bool
has items value = any (λ item. text_eq item value) items

-- The loop of `unique`; `seen` holds what was pushed before.
unfoldable pub unique_from : List Text → List Text → List Text
unique_from seen [] = []
unique_from seen (item ∷ items) =
    let value = trim item in
    let skipped = unique_from seen items in
    let pushed = value ∷ unique_from (value ∷ seen) items in
    if not (truthy value) || has seen value then skipped else pushed

unfoldable pub unique : List Text → List Text
unique items = unique_from [] items

-- `list || []`
unfoldable pub or_empty {ℓ} : {A : Type ℓ} → Option (List A) → List A
or_empty none = []
or_empty (some items) = items

unfoldable pub id_or_name : ProviderResourceDetail → Text
id_or_name item = if truthy item.id then units "id:" ++ item.id else item.name

unfoldable pub id_aware_options :
    Option (List ProviderResourceDetail) → Option (List Text) → List Text
id_aware_options details fallback = unique (map id_or_name (or_empty details) ++ or_empty fallback)

unfoldable pub name_options : Option (List ProviderResourceDetail) → Option (List Text) → List Text
name_options details fallback =
    unique (map (λ item. item.name) (or_empty details) ++ or_empty fallback)

unfoldable pub provider_image_options : ProviderCatalog → List Text
provider_image_options catalog = id_aware_options catalog.image_details (some catalog.images)

unfoldable pub provider_flavor_options : ProviderCatalog → List Text
provider_flavor_options catalog = id_aware_options catalog.flavor_details (some catalog.flavors)

unfoldable pub provider_security_group_options : ProviderCatalog → List Text
provider_security_group_options catalog =
    name_options catalog.security_group_details catalog.security_groups

unfoldable pub provider_key_pair_options : ProviderCatalog → List Text
provider_key_pair_options catalog = name_options catalog.key_pair_details catalog.key_pairs

-- /[A-Za-z0-9._-]/
abbrev pub is_name_unit : ℕ → Bool
is_name_unit c =
    (leb b'A' c && leb c b'Z')
    || (leb b'a' c && leb c b'z')
    || (leb b'0' c && leb c b'9')
    || c == b'.'
    || c == b'_'
    || c == b'-'

-- /^[A-Za-z0-9._-]+$/.test(value)
unfoldable pub is_safe_provider_name : Text → Bool
is_safe_provider_name value = truthy value && all is_name_unit value
