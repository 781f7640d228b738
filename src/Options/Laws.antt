-- ===== src/Options/Laws.antt =====
-- What web/src/utils/providerCatalogOptions.ts offers.
use infra_orch_studio.Common.{
  ◌≡◌, false, not, ◌&&◌, ◌||◌, List, [], ◌∷◌, map, Text, text_eq_iff, truthy, arith, Bool-cases,
  inl, inr,
}
use infra_orch_studio.Js.Text.{trim}
use infra_orch_studio.Options.{has, unique_from, unique}

abbrev pub IsDistinct : List Text → Type 0
IsDistinct [] = Unit
IsDistinct (x ∷ xs) = (has xs x ≡ false) × IsDistinct xs

-- What the loop pushes: the trimmed items that are neither empty nor seen.
has-unique_from :
    (seen items : List Text) (v : Text)
    → has (unique_from seen items) v ≡ (truthy v && (not (has seen v) && has (map trim items) v))
unfolding unique_from
has-unique_from seen [] v = ground arith
has-unique_from seen (item ∷ items) v = ground (
  arith,
  has-unique_from seen items v,
  has-unique_from (trim item ∷ seen) items v,
  text_eq_iff (trim item) v,
)

-- A value is offered exactly when it is not empty and is an item with the spaces around it removed.
pub has-unique :
    (items : List Text) (v : Text) → has (unique items) v ≡ (truthy v && has (map trim items) v)
unfolding unique
has-unique items v = has-unique_from [] items v

unique_from-IsDistinct : (seen items : List Text) → IsDistinct (unique_from seen items)
unfolding unique_from
unique_from-IsDistinct seen [] = tt
unique_from-IsDistinct seen (item ∷ items) =
    elim (Bool-cases (not (truthy (trim item)) || has seen (trim item))) [
      | inl skip ↦ rw skip (unique_from-IsDistinct seen items)
      | inr push ↦ rw push (
        ground (
          arith,
          has-unique_from (trim item ∷ seen) items (trim item),
          text_eq_iff (trim item) (trim item),
        ),
        unique_from-IsDistinct (trim item ∷ seen) items,
      )
    ]

-- No value is offered twice.
pub unique-IsDistinct : (items : List Text) → IsDistinct (unique items)
unfolding unique
unique-IsDistinct items = unique_from-IsDistinct [] items
