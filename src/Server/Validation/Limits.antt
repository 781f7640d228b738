-- ===== src/Server/Validation/Limits.antt =====
-- How many instances a spec has that the server accepts.
use infra_orch_studio.Common.{
  ℕ, suc, ◌+◌, ◌%◌, ◌^◌, ◌≤◌, ◌<◌, ◌≡◌, refl, Bool, true, false, List, [], ◌∷◌, Text, All, length,
  inl, inr, ◌⊎◌, ◌==◌, ltb, arith,
}
use infra_orch_studio.Server.Validation.{
  GoInstance, GoSpec, Checked, unless, then_check, is_blank, not_positive, above_two,
  check_instances, check_network, validate_environment_spec,
}

module _ {ℓ} {A : Type ℓ} where
  unless_passes :
      (test : Bool) (message : Text) (rest : Checked A) (a : A)
      → unless test message rest ≡ inr a
      → (test ≡ false) × (rest ≡ inr a)
  unless_passes true message rest a h = absurd (ground arith)
  unless_passes false message rest a h = (refl, h)

  then_check_passes {κ} :
      {B : Type κ} (first : Checked A) (next : A → Checked B) (b : B)
      → then_check first next ≡ inr b
      → (a : A) × (first ≡ inr a) × (next a ≡ inr b)
  then_check_passes (inl message) next b h = absurd (ground arith)
  then_check_passes (inr a) next b h = (a, refl, h)

-- The sum of the counts, without wrapping around.
abbrev pub sum_of : List GoInstance → ℕ
sum_of [] = 0
sum_of (i ∷ is) = i.count + sum_of is

-- A count that is positive as an `int`.
abbrev pub IsPositive : GoInstance → Type 0
IsPositive i = (1 ≤ i.count) × (i.count < 2 ^ 63)

one_passed :
    (show : ℕ → Text) (index total t : ℕ) (i : GoInstance) (rest : List GoInstance)
    → check_instances show index total (i ∷ rest) ≡ inr t
    → IsPositive i × (check_instances show (suc index) ((total + i.count) % 2 ^ 64) rest ≡ inr t)
unfolding check_instances
one_passed show index total t i rest h =
    let (_, h) = unless_passes (is_blank i.name) _ _ t h in
    let (_, h) = unless_passes (is_blank i.image) _ _ t h in
    let (_, h) = unless_passes (is_blank i.flavor) _ _ t h in
    let (positive, h) = unless_passes (not_positive i.count) _ _ t h in
    let (_, h) = unless_passes _ _ _ t h in (ground arith, h)

-- The loop ends with the sum of the counts as an `int`.
total_passed :
    (show : ℕ → Text) (index total t : ℕ) (items : List GoInstance)
    → total < 2 ^ 64
    → check_instances show index total items ≡ inr t
    → All IsPositive items × (t ≡ (total + sum_of items) % 2 ^ 64)
unfolding check_instances
total_passed show index total t [] fits h =
    let same : total ≡ t = ground arith in (tt, omega (arith, same, fits))
total_passed show index total t (i ∷ rest) fits h =
    let (positive, passed) = one_passed show index total t i rest h in
    let (all_positive, e) =
      total_passed show (suc index) ((total + i.count) % 2 ^ 64) t rest (omega arith) passed in
    ((positive, all_positive), omega (arith, e))

-- At most two positive counts do not wrap around as 64 bits, but may be negative as an `int`.
sum_bound :
    (items : List GoInstance) (t : ℕ)
    → length items ≤ 2
    → All IsPositive items
    → t ≡ (0 + sum_of items) % 2 ^ 64
    → above_two t ≡ false
    → (sum_of items ≤ 2) ⊎ (2 ^ 63 ≤ sum_of items)
sum_bound [] t few p e h = inl (omega arith)
sum_bound (i ∷ []) t few p e h =
    let same : t ≡ sum_of (i ∷ []) = omega (arith, e, p.0.1) in ground arith
sum_bound (i ∷ j ∷ []) t few p e h =
    let same : t ≡ sum_of (i ∷ j ∷ []) = omega (arith, e, p.0.1, p.1.0.1) in ground arith
sum_bound (_ ∷ _ ∷ _ ∷ _) t few p e h = absurd (omega arith)

-- A spec that the server accepts has one or two instances, each with a count that is positive as a
-- 64-bit integer, and its counts add up to at most 2, or to at least 2 ^ 63: the total of two large
-- counts is negative and passes.
pub accepted_total :
    (show : ℕ → Text) (s : GoSpec)
    → validate_environment_spec show s ≡ inr tt
    → (1 ≤ length s.instances)
      × (length s.instances ≤ 2)
      × All IsPositive s.instances
      × ((sum_of s.instances ≤ 2) ⊎ (2 ^ 63 ≤ sum_of s.instances))
unfolding validate_environment_spec
accepted_total show s h =
    let (_, h) = unless_passes (is_blank s.environment_name) _ _ tt h in
    let (_, h) = unless_passes (is_blank s.tenant_name) _ _ tt h in
    let (_, h) = unless_passes (is_blank s.network_name) _ _ tt h in
    let (_, h) = unless_passes (is_blank s.subnet_name) _ _ tt h in
    let (any_items, h) = unless_passes (length s.instances == 0) _ _ tt h in
    let (few_items, h) = unless_passes (ltb 2 (length s.instances)) _ _ tt h in
    let (t, looped, h) = then_check_passes (check_instances show 0 0 s.instances) _ tt h in
    let (bounded, _) = unless_passes (above_two t) _ (check_network show s) tt h in
    let (positive, e) = total_passed show 0 0 t s.instances (omega arith) looped in
    let few : length s.instances ≤ 2 = ground arith in
    (ground arith, few, positive, sum_bound s.instances t few positive e bounded)
