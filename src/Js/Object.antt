-- ===== src/Js/Object.antt =====
-- A JavaScript object used as a map: an association list in the order of insertion, over any type
-- of keys that has an equality test.
use infra_orch_studio.Common.{
  ℕ, ◌≡◌, refl, ◌≢◌, ◌↔◌, Bool, true, Option, none, some, List, [], ◌∷◌, map, arith, String, Text,
  text_eq, text_eq_iff, str_eq, eq_iff, ◌==◌, ==_iff, if◌then◌else◌,
}

pub record Key {ℓ} (A : Type ℓ) : Type ℓ where
  pub same : A → A → Bool
  pub same_iff : (a b : A) → (same a b ≡ true) ↔ (a ≡ b)

instance abbrev pub nat_key : Key ℕ
nat_key = record { same = λ a b. a == b; same_iff = ==_iff }

instance abbrev pub string_key : Key String
string_key = record { same = str_eq; same_iff = eq_iff }

instance abbrev pub text_key : Key Text
text_key = record { same = text_eq; same_iff = text_eq_iff }

abbrev pub Object {ℓ κ} : Type ℓ → Type κ → Type (ℓ ⊔ κ)
Object K V = List (K × V)

module _ {ℓ κ} {K : Type ℓ} {V : Type κ} ⦃e : Key K⦄ where
  -- `o[k]`
  unfoldable pub get : K → Object K V → Option V
  get k [] = none
  get k ((j, v) ∷ o) = if e.same j k then some v else get k o

  -- `o[k] = v`: a key that is there keeps its place.
  unfoldable pub put : K → V → Object K V → Object K V
  put k v [] = (k, v) ∷ []
  put k v ((j, w) ∷ o) = if e.same j k then (k, v) ∷ o else (j, w) ∷ put k v o

  -- `Object.keys(o)`
  abbrev pub keys : Object K V → List K
  keys o = map (λ p. p.0) o

  pub get-put :
      (k j : K) (v : V) (o : Object K V)
      → get j (put k v o) ≡ (if e.same k j then some v else get j o)
  unfolding get put
  get-put k j v [] = refl
  get-put k j v ((i, w) ∷ o) =
      ground (arith, e.same_iff k j, e.same_iff i k, e.same_iff i j, get-put k j v o)

  pub put-ne-nil : (k : K) (v : V) (o : Object K V) → put k v o ≢ []
  unfolding put
  put-ne-nil k v [] = ground arith
  put-ne-nil k v ((j, w) ∷ o) = ground arith

  pub eq-nil_of_get : (o : Object K V) → ((k : K) → get k o ≡ none) → o ≡ []
  unfolding get
  eq-nil_of_get [] h = refl
  eq-nil_of_get ((j, v) ∷ o) h = ground (arith, h j, e.same_iff j j)
