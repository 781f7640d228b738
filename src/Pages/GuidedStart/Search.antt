-- ===== src/Pages/GuidedStart/Search.antt =====
-- `matchStageValue` and `stageDetail` of web/src/pages/GuidedStart.tsx.
use infra_orch_studio.Common.{
  ℕ, zero, suc, Bool, ◌&&◌, ◌||◌, Option, none, some, List, [], ◌∷◌, map, String, Text, units,
  truthy, text_eq, any, if◌then◌else◌,
}
use infra_orch_studio.Js.Number.{Number}
use infra_orch_studio.Js.Text.{includes}
use infra_orch_studio.Pages.GuidedStart.Values.{
  Json, null, boolean, number, string, array, object, Items, end, item, Fields, none_left, field,
  Shown, get, normalize_key, first_truthy, format_value,
}

pub data StageKey : Type 0 where
  create review approval result : StageKey

abbrev aliases : StageKey → List String
aliases create = "create" ∷ "draft" ∷ "request" ∷ "queue" ∷ "queued" ∷ "requests" ∷ []
aliases review = "review" ∷ "plan" ∷ "planReview" ∷ "preview" ∷ "pending_approval" ∷ []
aliases approval = "approval" ∷ "approved" ∷ "gate" ∷ "checkpoint" ∷ "policy" ∷ []
aliases result = "result" ∷ "done" ∷ "success" ∷ "completed" ∷ "jobs" ∷ "history" ∷ "outcome" ∷ []

unfoldable pub candidates : StageKey → List Text
unfolding normalize_key
candidates key = map (λ (alias : String). normalize_key (units alias)) (aliases key)

abbrev qualifiers : List String
qualifiers =
    "summary" ∷ "status" ∷ "state" ∷ "count" ∷ "total" ∷ "items" ∷ "list" ∷ "queue" ∷ "ready"
    ∷ "failed" ∷ "done" ∷ "result" ∷ "progress" ∷ "latest" ∷ []

-- The tests of the name of an entry.
unfoldable pub names_stage : StageKey → Text → Bool
unfolding candidates normalize_key includes
names_stage key entry =
    let normalized = normalize_key entry in
    any (text_eq normalized) (candidates key)
    || (any (λ (c : Text). includes c normalized) (candidates key)
        && any (λ (q : String). includes (units q) normalized) qualifiers)

unfoldable pub entry_of : StageKey → Fields → Option Json
unfolding names_stage
entry_of key none_left = none
entry_of key (field name value rest) =
    if names_stage key name then some value else entry_of key rest

abbrev labels_stage : StageKey → Text → Bool
labels_stage key normalized =
    any (λ (c : Text). text_eq normalized c || includes c normalized || includes normalized c)
      (candidates key)

abbrev or_else : Json → Json → Json
or_else null rest = rest
or_else value rest = value

abbrev pub nested_names : List String
nested_names =
    "overview" ∷ "summary" ∷ "metrics" ∷ "cards" ∷ "stages" ∷ "items" ∷ "steps" ∷ "data" ∷ "payload"
    ∷ []

module _ (shown : Shown) where
  -- `String(entry.key || entry.stage || … || '')`
  abbrev label_text : Option Json → Text
  label_text none = []
  label_text (some (string s)) = s
  label_text (some (number n)) = if shown.is_falsy n then [] else shown.of_number n
  label_text (some (boolean b)) = if b then units "true" else []
  label_text (some null) = []
  label_text (some value) = shown.of_other value

  unfoldable pub item_of : StageKey → Items → Option Json
  unfolding first_truthy candidates normalize_key includes
  item_of key end = none
  item_of key (item (object fields) rest) =
      let label =
        label_text (first_truthy shown ("key" ∷ "stage" ∷ "slug" ∷ "name" ∷ "title" ∷ []) fields) in
      if labels_stage key (normalize_key label) then some (object fields) else item_of key rest
  item_of key (item _ rest) = item_of key rest

  -- One of the nested names: `go` is the search of an object.
  abbrev pub nested_value : (Json → Json) → StageKey → Option Json → Json → Json
  nested_value go key (some (array items)) rest = elim (item_of key items) [
    | some found ↦ found
    | none ↦ rest
  ]
  nested_value go key (some (object fields)) rest = or_else (go (object fields)) rest
  nested_value go key _ rest = rest

  unfoldable pub search_nested : (Json → Json) → StageKey → List String → Fields → Json
  unfolding get item_of
  search_nested go key [] fields = null
  search_nested go key (name ∷ names) fields =
      nested_value go key (get (units name) fields) (search_nested go key names fields)

  -- The fuel bounds the depth of the search; the depth of the value is enough.
  unfoldable pub match_stage_value : ℕ → StageKey → Json → Json
  unfolding entry_of search_nested
  match_stage_value zero key (object fields) = elim (entry_of key fields) [
    | some value ↦ value
    | none ↦ null
  ]
  match_stage_value (suc fuel) key (object fields) = elim (entry_of key fields) [
    | some value ↦ value
    | none ↦ search_nested (match_stage_value fuel key) key nested_names fields
  ]
  match_stage_value fuel key source = null

  abbrev or_fallback : Option Text → Text → Text
  or_fallback none fallback = fallback
  or_fallback (some t) fallback = if truthy t then t else fallback

  unfoldable pub stage_detail : (Number → Bool) → ℕ → Json → StageKey → Text → Text
  unfolding format_value match_stage_value
  stage_detail is_one fuel source key fallback =
      or_fallback (format_value shown is_one (match_stage_value fuel key source)) fallback
