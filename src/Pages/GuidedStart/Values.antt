-- ===== src/Pages/GuidedStart/Values.antt =====
-- The values of web/src/pages/GuidedStart.tsx: what an untyped answer may be, and `formatValue`. A
-- number and a value of another kind are printed by parameters, and so is a date.
use infra_orch_studio.Common.{
  ℕ, suc, Bool, true, false, not, ◌&&◌, ◌||◌, ◌==◌, leb, Option, none, some, List, [], ◌∷◌, ◌++◌,
  map, String, Text, units, truthy, text_eq, any, keep, take, if◌then◌else◌,
}
use infra_orch_studio.Js.Number.{Number}
use infra_orch_studio.Js.Text.{trim, to_lower, join}

-- A value that was read from JSON, the fields of an object in the order of `Object.entries`.
mutual
  pub data Json : Type 0 where
    null : Json
    boolean : Bool → Json
    number : Number → Json
    string : Text → Json
    array : Items → Json
    object : Fields → Json

  pub data Items : Type 0 where
    end : Items
    item : Json → Items → Items

  pub data Fields : Type 0 where
    none_left : Fields
    field : Text → Json → Fields → Fields

abbrev is_alphanumeric : ℕ → Bool
is_alphanumeric c = (leb b'a' c && leb c b'z') || (leb b'0' c && leb c b'9')

-- Of the characters outside ASCII, which are dropped here, `toLowerCase` makes ASCII letters of two
-- (U+0130 and U+212A).
unfoldable pub normalize_key : Text → Text
unfolding to_lower
normalize_key value = keep is_alphanumeric (to_lower value)

-- `value.name`, where a missing one is `undefined`.
unfoldable pub get : Text → Fields → Option Json
get name none_left = none
get name (field other value rest) = if text_eq other name then some value else get name rest

-- How the page reads values of other kinds: whether a number is 0 or NaN, how a number, an array or an
-- object is made a text, and how a date is shown.
pub record Shown : Type 0 where
  pub is_falsy : Number → Bool
  pub of_number : Number → Text
  pub of_count : ℕ → Text
  pub of_other : Json → Text
  pub format_date : Text → Text

module _ (shown : Shown) where
  abbrev is_truthy : Option Json → Bool
  is_truthy none = false
  is_truthy (some null) = false
  is_truthy (some (boolean b)) = b
  is_truthy (some (number n)) = not (shown.is_falsy n)
  is_truthy (some (string s)) = truthy s
  is_truthy (some (array _)) = true
  is_truthy (some (object _)) = true

  -- `value.a || value.b || …`
  unfoldable pub first_truthy : List String → Fields → Option Json
  unfolding get
  first_truthy [] fields = none
  first_truthy (name ∷ []) fields = get (units name) fields
  first_truthy (name ∷ other ∷ names) fields =
      let rest = first_truthy (other ∷ names) fields in
      if is_truthy (get (units name) fields) then get (units name) fields else rest

  -- `value.a ?? value.b ?? …`
  abbrev given_or : Option Json → Option Json → Option Json
  given_or none rest = rest
  given_or (some null) rest = rest
  given_or (some value) rest = some value

  unfoldable pub first_given : List String → Fields → Option Json
  unfolding get
  first_given [] fields = none
  first_given (name ∷ names) fields = given_or (get (units name) fields) (first_given names fields)

  abbrev items_length : Items → ℕ
  items_length end = 0
  items_length (item _ rest) = suc (items_length rest)

  -- `${n} item${n === 1 ? '' : 's'}`
  abbrev plural : Bool → Text → Text
  plural one count = count ++ units (if one then " item" else " items")

  abbrev text_part : Option Json → List Text
  text_part (some (string s)) = if truthy (trim s) then trim s ∷ [] else []
  text_part _ = []

  abbrev count_part : (Number → Bool) → Option Json → List Text
  count_part is_one (some (number n)) = plural (is_one n) (shown.of_number n) ∷ []
  count_part is_one _ = []

  abbrev items_part : Option Json → List Text
  items_part (some (array items)) =
      plural (items_length items == 1) (shown.of_count (items_length items)) ∷ []
  items_part _ = []

  abbrev date_part : Option Json → List Text
  date_part (some (string s)) = if truthy (trim s) then shown.format_date s ∷ [] else []
  date_part _ = []

  abbrev keys : Fields → List Text
  keys none_left = []
  keys (field name _ rest) = name ∷ keys rest

  abbrev is_identity : Text → Bool
  is_identity k = any (text_eq k) (map units ("id" ∷ "name" ∷ "key" ∷ "slug" ∷ []))

  abbrev some_text : Text → Option Text
  some_text t = if truthy t then some t else none

  abbrev parts_or_keys : List Text → List Text → Option Text
  parts_or_keys (part ∷ parts) names = some (join (units " · ") (part ∷ parts))
  parts_or_keys [] [] = none
  parts_or_keys [] (name ∷ names) = some (join (units ", ") (name ∷ names))

  unfoldable pub format_value : (Number → Bool) → Json → Option Text
  unfolding first_truthy first_given join trim
  format_value is_one null = none
  format_value is_one (boolean b) = some (units (if b then "true" else "false"))
  format_value is_one (number n) = some (shown.of_number n)
  format_value is_one (string s) = some_text (trim s)
  format_value is_one (array items) =
      some (plural (items_length items == 1) (shown.of_count (items_length items)))
  format_value is_one (object fields) =
      parts_or_keys
        (text_part (first_truthy ("status" ∷ "state" ∷ "phase" ∷ []) fields)
          ++ (text_part
                (first_truthy ("summary" ∷ "detail" ∷ "message" ∷ "title" ∷ "label" ∷ []) fields)
              ++ (count_part is_one (first_given ("count" ∷ "total" ∷ "size" ∷ []) fields)
                  ++ (items_part (get (units "items") fields)
                      ++ date_part (
                          first_truthy
                            ("updated_at" ∷ "updatedAt" ∷ "created_at" ∷ "createdAt" ∷ [])
                            fields)))))
        (take 3 (keep (λ k. not (is_identity k)) (keys fields)))
