-- ===== src/Server/Validation/Instances.antt =====
-- The instances that the wizard accepts pass the server's loop.
use infra_orch_studio.Common.{
  ℕ, zero, suc, ◌+◌, ◌*◌, ◌%◌, ◌^◌, ◌≤◌, ◌≡◌, refl, sym, subst, ◌∙◌, true, false, ◌&&◌, List, [],
  ◌∷◌, map, Text, All, ltb, ◌==◌, truthy, length, inl, inr, ◌⊎◌, arith,
}
use mathlib.Core.Bool.{true≢false}
use native.Mathlib.Nat.{mul-le-mul_right, mul-div_cancel}
use infra_orch_studio.Js.Number.{Number, of_ℕ, whole, lt, add, is_finite, one, one-pos}
use infra_orch_studio.Api.{Instance}
use infra_orch_studio.Validation.Wizard.{total_from}
use infra_orch_studio.Validation.Wizard.Accepts.{IsInstance, IsCount}
use infra_orch_studio.Server.Go.{trim_space}
use infra_orch_studio.Server.Validation.{
  GoInstance, normalize_instance, is_blank, not_positive, above_two, check_instances,
}
use infra_orch_studio.Server.Validation.Trim.{truthy-trim_space_twice}
use infra_orch_studio.Server.Validation.Decode.{
  text_of, decode_instance, IsPlainInstance, not_blank,
}

-- The test of a key never refuses a normalized instance.
key_passes : (t : Text) → truthy (trim_space t) && is_blank (trim_space t) ≡ false
key_passes t = rw (truthy-trim_space_twice t) (ground arith)

mul_three : (k n : ℕ) → 3 * n ≤ suc (suc (suc k)) * n
mul_three k n = mul-le-mul_right n (omega arith)

-- A count that the wizard accepts and that is whole is 1 or 2.
pub size_cases : (k : ℕ) → IsCount (of_ℕ k) → (k ≡ 1) ⊎ (k ≡ 2)
unfolding of_ℕ
size_cases zero (m, e, low, high) = absurd (ground (arith, one-pos))
size_cases (suc zero) h = inl refl
size_cases (suc (suc zero)) h = inr refl
size_cases (suc (suc (suc k))) (m, e, low, high) =
    let same : (suc (suc (suc k))) * one ≡ m = ground arith in
    absurd (omega (arith, same, one-pos, mul_three k one))

pub whole-of_ℕ : (k : ℕ) → whole (of_ℕ k) ≡ k
unfolding whole of_ℕ
whole-of_ℕ k = mul-div_cancel k one-pos

positive_size : (k : ℕ) → IsCount (of_ℕ k) → not_positive k ≡ false
positive_size k h = elim (size_cases k h) [ inl e ↦ rw e refl | inr e ↦ rw e refl ]

-- One instance passes, and adds its size.
one_passes :
    (show : ℕ → Text) (i total : ℕ) (item : Instance) (rest : List GoInstance)
    → (plain : IsPlainInstance item) → IsInstance item
    → check_instances show i total (normalize_instance (decode_instance item) ∷ rest)
      ≡ check_instances show (suc i) ((total + plain.size) % 2 ^ 64) rest
unfolding check_instances normalize_instance decode_instance
one_passes show i total item rest plain h =
    let k = plain.size in
    let positive : not_positive k ≡ false = positive_size k (subst IsCount plain.sized h.counted) in
    rw
      (
        not_blank item.name plain.name h.named,
        not_blank item.image plain.image h.imaged,
        not_blank item.flavor plain.flavor h.flavored,
        plain.sized,
        whole-of_ℕ k,
        positive,
        key_passes (text_of item.ssh_key_name),
      )
      refl

-- What the wizard adds up for one or two instances.
abbrev pub total_of_one : ℕ → Number
total_of_one k = add (of_ℕ 0) (of_ℕ k)

abbrev pub total_of_two : ℕ → ℕ → Number
total_of_two k l = add (total_of_one k) (of_ℕ l)

pub total_from-two :
    (i j : Instance) (k l : ℕ)
    → i.count ≡ of_ℕ k
    → j.count ≡ of_ℕ l
    → total_from (of_ℕ 0) (i ∷ j ∷ []) ≡ total_of_two k l
unfolding total_from is_finite of_ℕ
total_from-two i j k l a b = rw (a, b) refl

too_many :
    (lt (of_ℕ 2) (total_of_two 1 2) ≡ true)
    × (lt (of_ℕ 2) (total_of_two 2 1) ≡ true)
    × (lt (of_ℕ 2) (total_of_two 2 2) ≡ true)
unfolding of_ℕ lt add one
too_many = (refl, refl, refl)

-- Two instances that the wizard accepts have one machine each.
pub two_sizes :
    (k l : ℕ)
    → IsCount (of_ℕ k)
    → IsCount (of_ℕ l)
    → lt (of_ℕ 2) (total_of_two k l) ≡ false
    → (k ≡ 1) × (l ≡ 1)
two_sizes k l a b h = elim (size_cases k a) [
  | inl one_first ↦ elim (size_cases l b) [
    | inl one_second ↦ (one_first, one_second)
    | inr two ↦ absurd (true≢false (sym too_many.0 ∙ rw (one_first, two) at h))
  ]
  | inr two_first ↦ elim (size_cases l b) [
    | inl one_second ↦ absurd (true≢false (sym too_many.1 ∙ rw (two_first, one_second) at h))
    | inr two ↦ absurd (true≢false (sym too_many.2 ∙ rw (two_first, two) at h))
  ]
]

two_fit :
    (k l : ℕ)
    → IsCount (of_ℕ k)
    → IsCount (of_ℕ l)
    → lt (of_ℕ 2) (total_of_two k l) ≡ false
    → above_two (((0 + k) % 2 ^ 64 + l) % 2 ^ 64) ≡ false
two_fit k l a b h = let (first, second) = two_sizes k l a b h in rw (first, second) refl

one_fits : (k : ℕ) → IsCount (of_ℕ k) → above_two ((0 + k) % 2 ^ 64) ≡ false
one_fits k a = elim (size_cases k a) [ inl e ↦ rw e refl | inr e ↦ rw e refl ]

-- The loop over the instances passes, with a total that the server allows.
pub instances_pass :
    (show : ℕ → Text) (items : List Instance)
    → 1 ≤ length items
    → length items ≤ 2
    → All IsPlainInstance items
    → All IsInstance items
    → lt (of_ℕ 2) (total_from (of_ℕ 0) items) ≡ false
    → (total : ℕ) × (check_instances show 0 0 (map normalize_instance (map decode_instance items))
        ≡ inr total)
      × (above_two total ≡ false)
unfolding check_instances
instances_pass show [] low high p h t = absurd (omega arith)
instances_pass show (i ∷ []) low high (p, _) (h, _) t = (
  (0 + p.size) % 2 ^ 64,
  one_passes show 0 0 i [] p h,
  one_fits p.size (subst IsCount p.sized h.counted),
)
instances_pass show (i ∷ j ∷ []) low high (p, (q, _)) (h, (g, _)) t = (
  ((0 + p.size) % 2 ^ 64 + q.size) % 2 ^ 64,
  one_passes show 0 0 i (normalize_instance (decode_instance j) ∷ []) p h
      ∙ one_passes show 1 ((0 + p.size) % 2 ^ 64) j [] q g,
  two_fit p.size q.size (subst IsCount p.sized h.counted) (subst IsCount q.sized g.counted)
      (subst (λ n. lt (of_ℕ 2) n ≡ false) (total_from-two i j p.size q.size p.sized q.sized) t),
)
instances_pass show (_ ∷ _ ∷ _ ∷ _) low high p h t = absurd (omega arith)

pub sizes_pass :
    (items : List Instance)
    → 1 ≤ length items
    → length items ≤ 2
    → let normal = map normalize_instance (map decode_instance items) in
      (length normal == 0 ≡ false) × (ltb 2 (length normal) ≡ false)
sizes_pass [] low high = absurd (omega arith)
sizes_pass (_ ∷ []) low high = (refl, refl)
sizes_pass (_ ∷ _ ∷ []) low high = (refl, refl)
sizes_pass (_ ∷ _ ∷ _ ∷ _) low high = absurd (omega arith)
