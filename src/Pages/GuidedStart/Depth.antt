-- ===== src/Pages/GuidedStart/Depth.antt =====
-- The search of an answer ends: the depth of the answer is enough fuel.
use infra_orch_studio.Common.{
  ℕ, zero, suc, ◌≤◌, max, Option, none, some, List, [], ◌∷◌, String, Text, units, ◌≡◌, refl, ap,
  arith,
}
use infra_orch_studio.Pages.GuidedStart.Values.{
  Json, null, boolean, number, string, array, object, Items, end, item, Fields, none_left, field,
  Shown, get,
}
use infra_orch_studio.Pages.GuidedStart.Search.{
  StageKey, nested_value, search_nested, match_stage_value, nested_names, entry_of,
}

unfoldable mutual
  pub depth : Json → ℕ
  depth null = 0
  depth (boolean b) = 0
  depth (number n) = 0
  depth (string s) = 0
  depth (array items) = suc (depth_items items)
  depth (object fields) = suc (depth_fields fields)

  pub depth_items : Items → ℕ
  depth_items end = 0
  depth_items (item x rest) = max (depth x) (depth_items rest)

  pub depth_fields : Fields → ℕ
  depth_fields none_left = 0
  depth_fields (field name x rest) = max (depth x) (depth_fields rest)

get-depth :
    (name : Text) (fields : Fields) (value : Json)
    → get name fields ≡ some value
    → depth value ≤ depth_fields fields
unfolding get depth
get-depth name none_left value h = cc
get-depth name (field other x rest) value h = ground (arith, get-depth name rest value)

module _ (shown : Shown) where
  -- The search reads the fields of its object only.
  search_nested-ap :
      (go go' : Json → Json) (key : StageKey) (names : List String) (fields : Fields)
      → ((name : Text) (value : Json) → get name fields ≡ some value → go value ≡ go' value)
      → search_nested shown go key names fields ≡ search_nested shown go' key names fields
  unfolding search_nested
  search_nested-ap go go' key [] fields agree = refl
  search_nested-ap go go' key (name ∷ names) fields agree =
      with_value (get (units name) fields) refl (search_nested-ap go go' key names fields agree)
    where
      with_value :
          (o : Option Json) {x y : Json}
          → get (units name) fields ≡ o
          → x ≡ y
          → nested_value shown go key o x ≡ nested_value shown go' key o y
      with_value none h e = e
      with_value (some null) h e = e
      with_value (some (boolean b)) h e = e
      with_value (some (number n)) h e = e
      with_value (some (string s)) h e = e
      with_value (some (array items)) h e = ground (arith, e)
      with_value (some (object inner)) h e = rw (agree (units name) (object inner) h, e) refl

  -- Any fuel that is at least the depth of the answer gives the same value.
  pub match_stage_value-enough :
      (n m : ℕ) (key : StageKey) (source : Json)
      → depth source ≤ n
      → depth source ≤ m
      → match_stage_value shown n key source ≡ match_stage_value shown m key source
  unfolding match_stage_value depth
  match_stage_value-enough zero m key (object fields) a b = absurd (omega arith)
  match_stage_value-enough (suc n) zero key (object fields) a b = absurd (omega arith)
  match_stage_value-enough (suc n) (suc m) key (object fields) a b =
      ap (λ (rest : Json). elim (entry_of key fields) [ some value ↦ value | none ↦ rest ])
        (search_nested-ap (match_stage_value shown n key) (match_stage_value shown m key) key
          nested_names fields
          (λ name value h.
            match_stage_value-enough n m key value (omega (arith, get-depth name fields value h))
              (omega (arith, get-depth name fields value h))))
  match_stage_value-enough zero zero key null a b = refl
  match_stage_value-enough zero (suc m) key null a b = refl
  match_stage_value-enough (suc n) zero key null a b = refl
  match_stage_value-enough (suc n) (suc m) key null a b = refl
  match_stage_value-enough zero zero key (boolean x) a b = refl
  match_stage_value-enough zero (suc m) key (boolean x) a b = refl
  match_stage_value-enough (suc n) zero key (boolean x) a b = refl
  match_stage_value-enough (suc n) (suc m) key (boolean x) a b = refl
  match_stage_value-enough zero zero key (number x) a b = refl
  match_stage_value-enough zero (suc m) key (number x) a b = refl
  match_stage_value-enough (suc n) zero key (number x) a b = refl
  match_stage_value-enough (suc n) (suc m) key (number x) a b = refl
  match_stage_value-enough zero zero key (string x) a b = refl
  match_stage_value-enough zero (suc m) key (string x) a b = refl
  match_stage_value-enough (suc n) zero key (string x) a b = refl
  match_stage_value-enough (suc n) (suc m) key (string x) a b = refl
  match_stage_value-enough zero zero key (array x) a b = refl
  match_stage_value-enough zero (suc m) key (array x) a b = refl
  match_stage_value-enough (suc n) zero key (array x) a b = refl
  match_stage_value-enough (suc n) (suc m) key (array x) a b = refl
