-- ===== src/Pages/Catalog/Links.antt =====
-- From a tab of web/src/pages/ProviderDetail.tsx to a resource and back.
use infra_orch_studio.Common.{
  ◌≡◌, refl, ap, ◌∙◌, true, false, Option, none, some, List, [], ◌∷◌, Text, units, text_eq,
  text_eq_iff, truthy, ◌++◌, find, arith, Bool-cases, inl, inr,
}
use infra_orch_studio.Js.Params
use infra_orch_studio.Js.Params.{Params}
use infra_orch_studio.Js.Params.Laws.{first, get-first, get_all-set}
use infra_orch_studio.Api.{ProviderCatalog, ProviderResourceDetail}
use infra_orch_studio.Pages.Catalog.{
  TabKey, images, flavors, networks, security_groups, key_pairs, instances, tab_text,
  normalize_tab_key, rows_for_tab, tab_of, select_tab, row_id, is_named, resource_item,
}

normalize-tab_text : (tab : TabKey) → normalize_tab_key (some (tab_text tab)) ≡ tab
unfolding normalize_tab_key text_eq
normalize-tab_text images = refl
normalize-tab_text flavors = refl
normalize-tab_text networks = refl
normalize-tab_text security_groups = refl
normalize-tab_text key_pairs = refl
normalize-tab_text instances = refl

-- Selecting a tab writes an address that is read back as this tab, and leaves every other name of
-- the address as it was.
pub tab_of-select_tab :
    (tab : TabKey) (ps : Params)
    → (tab_of (select_tab tab ps) ≡ tab)
      × ((name : Text)
          → text_eq (units "tab") name ≡ false
          → Params.get_all name (select_tab tab ps) ≡ Params.get_all name ps)
unfolding tab_of select_tab text_eq
tab_of-select_tab tab ps = (
  ap normalize_tab_key (
        get-first (units "tab") _
        ∙ ap first (get_all-set (units "tab") (units "tab") (tab_text tab) ps))
      ∙ normalize-tab_text tab,
  λ name other. get_all-set (units "tab") name (tab_text tab) ps ∙ rw other refl,
)

-- The rows of a tab, one after the other, each with the first row that its link finds.
abbrev pub IsFound : Text → Option ProviderResourceDetail → Type 0
IsFound id none = ⊥
IsFound id (some row) = is_named id row ≡ true

named_itself : (row : ProviderResourceDetail) → is_named (row_id row) row ≡ true
unfolding is_named row_id
named_itself row = elim (Bool-cases (truthy row.id)) [
  | inl given ↦ rw given (ground (arith, text_eq_iff row.id row.id))
  | inr blank ↦ rw blank (ground (arith, text_eq_iff row.name row.name))
]

find-IsFound :
    (id : Text) (before after : List ProviderResourceDetail) (row : ProviderResourceDetail)
    → is_named id row ≡ true
    → IsFound id (find (is_named id) (before ++ (row ∷ after)))
find-IsFound id [] after row h = rw h h
find-IsFound id (x ∷ xs) after row h = elim (Bool-cases (is_named id x)) [
  | inl here ↦ rw here here
  | inr later ↦ rw later (find-IsFound id xs after row h)
]

-- The page of a resource, at the link of any row of a tab and with the same catalog, shows a row
-- of this tab that has the identifier of the link as its id or as its name.
pub resource_item-row_id :
    (catalog : Option ProviderCatalog) (tab : TabKey)
    → (before after : List ProviderResourceDetail) → (row : ProviderResourceDetail)
    → rows_for_tab catalog tab ≡ before ++ (row ∷ after)
    → IsFound (row_id row) (resource_item catalog tab (row_id row))
unfolding resource_item
resource_item-row_id catalog tab before after row h =
    rw h (find-IsFound (row_id row) before after row (named_itself row))
