-- ===== src/I18n/Keys.antt =====
-- web/src/components/GuidePanel.tsx gives each step and each item its own text as the key of its
-- element, so they must differ from one another.
use infra_orch_studio.Common.{
  ℕ, zero, suc, Bool, true, not, ◌&&◌, some, List, [], ◌∷◌, String, str_eq, any, get_elem?, ◌≡◌,
  refl, ap, arith, eq_iff,
}
use infra_orch_studio.Shell.{RouteKey}
use infra_orch_studio.I18n.English.{english}
use infra_orch_studio.I18n.English.Guides as EnglishGuides
use infra_orch_studio.I18n.Korean.{korean}
use infra_orch_studio.I18n.Korean.Guides as KoreanGuides
use infra_orch_studio.I18n.Provider.{Locale, en, ko, copy_of}

abbrev distinct : List String → Bool
distinct [] = true
distinct (x ∷ xs) = not (any (λ y. str_eq x y) xs) && distinct xs

-- No text stands at two places.
abbrev pub AreKeys : List String → Type 0
AreKeys xs = (i j : ℕ) (x : String) → get_elem? xs i ≡ some x → get_elem? xs j ≡ some x → i ≡ j

any-get_elem? :
    (x : String) (xs : List String) (i : ℕ)
    → get_elem? xs i ≡ some x
    → any (λ y. str_eq x y) xs ≡ true
any-get_elem? x [] i h = cc
any-get_elem? x (y ∷ ys) zero h = ground (arith, eq_iff x y)
any-get_elem? x (y ∷ ys) (suc i) h = ground (arith, any-get_elem? x ys i h)

distinct-AreKeys : (xs : List String) → distinct xs ≡ true → AreKeys xs
distinct-AreKeys [] d i j x hi hj = cc
distinct-AreKeys (y ∷ ys) d zero zero x hi hj = refl
distinct-AreKeys (y ∷ ys) d zero (suc j) x hi hj =
    ground (arith, any-get_elem? x ys j hj, eq_iff x y)
distinct-AreKeys (y ∷ ys) d (suc i) zero x hi hj =
    ground (arith, any-get_elem? x ys i hi, eq_iff x y)
distinct-AreKeys (y ∷ ys) d (suc i) (suc j) x hi hj =
    ap suc (distinct-AreKeys ys (ground arith) i j x hi hj)

steps_distinct : (locale : Locale) → distinct (copy_of locale).guide.cycle_steps ≡ true
unfolding english korean EnglishGuides.guide_copy KoreanGuides.guide_copy
steps_distinct en = refl
steps_distinct ko = refl

english_items : (key : RouteKey) → distinct (EnglishGuides.pages key).items ≡ true
unfolding EnglishGuides.pages
english_items RouteKey.dashboard = refl
english_items _ = refl

korean_items : (key : RouteKey) → distinct (KoreanGuides.pages key).items ≡ true
unfolding KoreanGuides.pages
korean_items RouteKey.dashboard = refl
korean_items _ = refl

items_distinct :
    (locale : Locale) (key : RouteKey) → distinct ((copy_of locale).guide.pages key).items ≡ true
unfolding english korean EnglishGuides.guide_copy KoreanGuides.guide_copy
items_distinct en key = english_items key
items_distinct ko key = korean_items key

-- In both languages and on every page, no two steps and no two items of the guide have the same text.
pub guide_keys :
    (locale : Locale) (key : RouteKey)
    → AreKeys (copy_of locale).guide.cycle_steps × AreKeys ((copy_of locale).guide.pages key).items
guide_keys locale key =
    (distinct-AreKeys _ (steps_distinct locale), distinct-AreKeys _ (items_distinct locale key))
