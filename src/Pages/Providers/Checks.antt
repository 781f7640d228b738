-- ===== src/Pages/Providers/Checks.antt =====
-- The list of connections of web/src/pages/Providers.tsx, the end of a save, and the check of a
-- connection before use.
use infra_orch_studio.Common.{
  ℕ, ◌+◌, Bool, false, not, ◌||◌, Option, none, some, List, [], ◌++◌, Text, units, truthy, text_eq,
  length, ◌==◌, if◌then◌else◌,
}
use infra_orch_studio.Js.Text.{trim}
use infra_orch_studio.Options.{is_safe_provider_name}
use infra_orch_studio.Pages.Fetch.{Answer, answered, refused, message_or}
use infra_orch_studio.Pages.Providers.{Page, Draft, initial_draft}

-- What `load` waits for.
pub data Listing {ℓ} (C : Type ℓ) : Type ℓ where
  signed_out : Listing C
  listing : Answer (List C × Option Text) → Listing C

abbrev cloud_or_empty : Option Text → Text
cloud_or_empty none = []
cloud_or_empty (some cloud) = cloud

-- The name of a new draft, while the draft of the closure has no other than the first one; `show`
-- prints a number.
unfoldable pub next_name : (ℕ → Text) → ℕ → Text
next_name show count =
    if count == 0 then units "openstack-main" else units "openstack-" ++ show (count + 1)

unfoldable pub named_draft : (ℕ → Text) → (closure : Draft) → ℕ → Draft → Draft
named_draft show closure count draft =
    if not (truthy closure.name) || text_eq closure.name initial_draft.name
    then record draft { name = next_name show count }
    else draft

-- The start of `load`.
unfoldable pub begin_load {ℓ} : {C : Type ℓ} → Page C → Page C
begin_load page = record page { error = none; notice = none }

-- The end of `load`; `closure` is the draft of the render that called it.
unfoldable pub list_providers {ℓ} :
    {C : Type ℓ} → (ℕ → Text) → (closure : Draft) → Listing C → Page C → Page C
list_providers show closure signed_out page = page
list_providers show closure (listing (refused message)) page = record page {
  error = some (message_or "failed to load providers" message);
}
list_providers show closure (listing (answered (items, cloud))) page = record page {
  items = items;
  default_cloud = cloud_or_empty cloud;
  draft = named_draft show closure (length items) page.draft;
}

-- The answer to a save: the notice is set, and the start of `load` follows at once.
unfoldable pub saved {ℓ} :
    {C : Type ℓ} → Bool → (closure : Draft) → Answer (Unit {0}) → Page C → Page C
unfolding begin_load
saved ko closure (refused message) page = record page {
  error = some (message_or "failed to save provider" message);
  saving = false;
}
saved ko closure (answered _) page = begin_load (record page {
  notice = some (
      if ko
      then units "공급자 " ++ (closure.name ++ units " 저장 완료")
      else units "Saved provider " ++ closure.name);
})

-- The answer to that `load`, and `finally`.
unfoldable pub reloaded {ℓ} :
    {C : Type ℓ} → (ℕ → Text) → (closure : Draft) → Listing C → Page C → Page C
reloaded show closure reply page = record (list_providers show closure reply page) {
  saving = false;
}

-- `providerNameValid`
unfoldable pub provider_name_valid : Draft → Bool
provider_name_valid draft =
    let name = trim draft.name in not (truthy name) || is_safe_provider_name name

pub record Preflight {ℓ} (R : Type ℓ) : Type ℓ where
  pub result : Option R
  pub busy : Option Text
  pub error : Option Text

-- `runPreflight`
unfoldable pub begin_preflight {ℓ} : {R : Type ℓ} → Text → Preflight R → Preflight R
begin_preflight name p = record { result = none; busy = some name; error = none }

unfoldable pub end_preflight {ℓ} : {R : Type ℓ} → Answer R → Preflight R → Preflight R
end_preflight (answered result) p = record p { result = some result; busy = none }
end_preflight (refused message) p = record p {
  error = some (message_or "provider preflight failed" message);
  busy = none;
}
