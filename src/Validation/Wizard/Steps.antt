-- ===== src/Validation/Wizard/Steps.antt =====
-- The wizard's error lists step by step, from the errors of the fields.
use infra_orch_studio.Common.{
  ℕ, suc, ◌≡◌, refl, sym, subst, ◌≢◌, ◌↔◌, ◌⊎◌, Bool, true, false, Option, none, some, List, [],
  ◌∷◌, String, given, if◌then◌else◌, arith, All, Bool-cases, Option-cases, inl, inr, keep,
}
use infra_orch_studio.Js.Object.{nat_key, get, put, keys, get-put}
use infra_orch_studio.Api.{EnvironmentSpec, Instance}
use infra_orch_studio.Validation.Wizard.{
  FieldKey, tenant_name, environment_name, network_name, network_cidr, subnet_name, subnet_cidr,
  subnet_gateway_ip, instances, security_groups, instance_field, field_key, Errors, push, set_if,
  required_errors, cidr_errors, gateway_errors, group_errors, count_errors, instance_errors,
  instances_errors, field_errors, on_instances, step_keys, messages, fill_steps, empty_steps,
  step_errors,
}
use infra_orch_studio.Validation.Wizard.Accepts.{IsAcceptable, field_errors-eq-nil_iff}

-- No stored message is empty.
abbrev IsTold : Errors → Type 0
IsTold e = (k : FieldKey) (m : String) → get k e ≡ some m → given m ≡ true

put-IsTold :
    (k : FieldKey) (m : String) (e : Errors) → given m ≡ true → IsTold e → IsTold (put k m e)
put-IsTold k m e g told j n h = ground (arith, get-put k j m e, told j n)

set_if-IsTold :
    (t : Bool) (k : FieldKey) (m : String) (e : Errors)
    → given m ≡ true
    → IsTold e
    → IsTold (set_if t k m e)
unfolding set_if
set_if-IsTold true k m e g told = put-IsTold k m e g told
set_if-IsTold false k m e g told = told

push-IsTold : (k : FieldKey) (m : Option String) (e : Errors) → IsTold e → IsTold (push k m e)
unfolding push
push-IsTold k none e told = told
push-IsTold k (some m) e told = elim (Bool-cases (given m)) [
  | inl g ↦ rw g (put-IsTold k m e g told)
  | inr g ↦ rw g told
]

if-IsTold : (b : Bool) (d e : Errors) → IsTold d → IsTold e → IsTold (if b then d else e)
if-IsTold true d e p q = p
if-IsTold false d e p q = q

nil-IsTold : IsTold []
unfolding get
nil-IsTold k m h = cc

ruleset telling = (put-IsTold, set_if-IsTold, push-IsTold, if-IsTold)

required_errors-IsTold :
    (s : EnvironmentSpec) (e : Errors) → IsTold e → IsTold (required_errors s e)
unfolding required_errors
required_errors-IsTold s e told = search telling depth 9

cidr_errors-IsTold : (s : EnvironmentSpec) (e : Errors) → IsTold e → IsTold (cidr_errors s e)
unfolding cidr_errors
cidr_errors-IsTold s e told = search telling depth 9

gateway_errors-IsTold : (s : EnvironmentSpec) (e : Errors) → IsTold e → IsTold (gateway_errors s e)
unfolding gateway_errors
gateway_errors-IsTold s e told = search telling

group_errors-IsTold : (l : List Instance) (e : Errors) → IsTold e → IsTold (group_errors l e)
unfolding group_errors
group_errors-IsTold l e told = search telling depth 9

instance_errors-IsTold :
    (i : ℕ) (item : Instance) (e : Errors) → IsTold e → IsTold (instance_errors i item e)
unfolding instance_errors count_errors
instance_errors-IsTold i item e told = search telling depth 9

instances_errors-IsTold :
    (i : ℕ) (l : List Instance) (e : Errors) → IsTold e → IsTold (instances_errors i l e)
unfolding instances_errors
instances_errors-IsTold i [] e told = told
instances_errors-IsTold i (item ∷ l) e told =
    instances_errors-IsTold (suc i) l _ (instance_errors-IsTold i item e told)

field_errors-IsTold : (s : EnvironmentSpec) → IsTold (field_errors s)
unfolding field_errors
field_errors-IsTold s =
    search
      (
        telling, nil-IsTold, required_errors-IsTold, cidr_errors-IsTold, gateway_errors-IsTold,
        group_errors-IsTold, instances_errors-IsTold,
      )
      depth 12

-- A list of messages is empty when none of its keys has an error.
abbrev IsSilent : Errors → FieldKey → Type 0
IsSilent e k = get k e ≡ none

module _ (e : Errors) (told : IsTold e) where
  messages-eq-nil_iff : (ks : List FieldKey) → (messages e ks ≡ []) ↔ All (IsSilent e) ks
  unfolding messages
  messages-eq-nil_iff [] = ground arith
  messages-eq-nil_iff (k ∷ ks) = elim (Option-cases (get k e)) [
    | inl silent ↦ ground (arith, silent, messages-eq-nil_iff ks)
    | inr (m, found) ↦ ground (arith, found, told k m found)
  ]

module _ (P : FieldKey → Type 0) where
  All-keep :
      (p : FieldKey → Bool) (ks : List FieldKey)
      → ((k : FieldKey) → p k ≡ true → P k)
      → All P (keep p ks)
  All-keep p [] h = tt
  All-keep p (k ∷ ks) h = elim (Bool-cases (p k)) [
    | inl kept ↦ rw kept (h k kept, All-keep p ks h)
    | inr dropped ↦ rw dropped (All-keep p ks h)
  ]

  -- What holds of the keys that are kept holds of every such key with an entry.
  get-cases :
      (p : FieldKey → Bool) (e : Errors) (k : FieldKey)
      → All P (keep p (keys e))
      → p k ≡ true
      → (get k e ≡ none) ⊎ P k
  unfolding get
  get-cases p [] k h kept = inl refl
  get-cases p ((j, m) ∷ e) k h kept = elim (Bool-cases (field_key.same j k)) [
    | inl same ↦ ground (arith, (field_key.same_iff j k).0 same)
    | inr other ↦ ground (arith, get-cases p e k)
  ]

abbrev pub IsStepClear : Errors → ℕ → Type 0
IsStepClear e n = get n (step_errors e) ≡ some []

step_errors-get :
    (e : Errors)
    → (get 1 (step_errors e) ≡ some (messages e (tenant_name ∷ [])))
      × (get 2 (step_errors e) ≡ some (messages e (environment_name ∷ [])))
      × (get 3 (step_errors e)
          ≡ some (messages e (network_name ∷ network_cidr ∷ subnet_name ∷ subnet_cidr ∷ [])))
      × (get 4 (step_errors e) ≡ some (messages e (keep on_instances (keys e))))
      × (get 5 (step_errors e) ≡ some (messages e (security_groups ∷ [])))
      × (get 6 (step_errors e) ≡ some (messages e (keys e)))
unfolding get put step_errors fill_steps step_keys empty_steps
step_errors-get e = (refl, refl, refl, refl, refl, refl)

eq-nil_of_silent : (e : Errors) → All (IsSilent e) (keys e) → e ≡ []
unfolding get
eq-nil_of_silent [] h = refl
eq-nil_of_silent ((k, m) ∷ e) h = ground (arith, field_key.same_iff k k)

module _ (e : Errors) (told : IsTold e) where
  IsStepClear-iff :
      (n : ℕ) (ks : List FieldKey)
      → get n (step_errors e) ≡ some (messages e ks)
      → IsStepClear e n ↔ All (IsSilent e) ks
  IsStepClear-iff n ks at_step = ground (arith, at_step, messages-eq-nil_iff e told ks)

  review_silent_iff : IsStepClear e 6 ↔ (e ≡ [])
  review_silent_iff =
      let (to, from) = IsStepClear-iff 6 (keys e) (step_errors-get e).5 in
      (
        λ h. eq-nil_of_silent e (to h),
        λ h. from (subst (λ o. All (IsSilent e) (keys o)) (sym h) tt),
      )

  -- The keys of the steps 1 to 5: all but the gateway's.
  silent_of_earlier :
      All (IsSilent e) (tenant_name ∷ environment_name ∷ [])
      → All (IsSilent e) (network_name ∷ network_cidr ∷ subnet_name ∷ subnet_cidr ∷ [])
      → All (IsSilent e) (keep on_instances (keys e))
      → All (IsSilent e) (security_groups ∷ [])
      → (k : FieldKey) → k ≢ subnet_gateway_ip
      → get k e ≡ none
  unfolding on_instances
  silent_of_earlier a b c d instances h =
      ground (arith, get-cases (IsSilent e) on_instances e instances c)
  silent_of_earlier a b c d (instance_field i f) h =
      ground (arith, get-cases (IsSilent e) on_instances e (instance_field i f) c)
  silent_of_earlier a b c d subnet_gateway_ip h = absurd (h refl)
  silent_of_earlier a b c d k h = ground arith

  not_gateway : (k : FieldKey) → on_instances k ≡ true → k ≢ subnet_gateway_ip
  unfolding on_instances
  not_gateway k h = ground arith

  earlier_silent_iff :
      (IsStepClear e 1 × IsStepClear e 2 × IsStepClear e 3 × IsStepClear e 4 × IsStepClear e 5)
      ↔ ((k : FieldKey) → k ≢ subnet_gateway_ip → get k e ≡ none)
  earlier_silent_iff =
      let (a, b, c, d, f, g) = step_errors-get e in
      let at_1 = IsStepClear-iff 1 (tenant_name ∷ []) a in
      let at_2 = IsStepClear-iff 2 (environment_name ∷ []) b in
      let at_3 =
        IsStepClear-iff 3 (network_name ∷ network_cidr ∷ subnet_name ∷ subnet_cidr ∷ []) c in
      let at_4 = IsStepClear-iff 4 (keep on_instances (keys e)) d in
      let at_5 = IsStepClear-iff 5 (security_groups ∷ []) f in
      (
        λ h.
            silent_of_earlier ((at_1.0 h.0).0, ((at_2.0 h.1).0, tt)) (at_3.0 h.2) (at_4.0 h.3)
              (at_5.0 h.4),
        λ h. (
          at_1.1 (h tenant_name (cc), tt),
          at_2.1 (h environment_name (cc), tt),
          at_3.1 (
            h network_name (cc),
            (h network_cidr (cc), (h subnet_name (cc), (h subnet_cidr (cc), tt))),
          ),
          at_4.1 (All-keep (IsSilent e) on_instances (keys e) (λ k p. h k (not_gateway k p))),
          at_5.1 (h security_groups (cc), tt),
        ),
      )

-- The review step reports nothing exactly for an acceptable environment.
pub review_clear_iff : (s : EnvironmentSpec) → IsStepClear (field_errors s) 6 ↔ IsAcceptable s
review_clear_iff s =
    let (to, from) = review_silent_iff (field_errors s) (field_errors-IsTold s) in
    let (accept, clear) = field_errors-eq-nil_iff s in (λ h. accept (to h), λ h. from (clear h))

-- The steps 1 to 5 report nothing exactly when no field but the gateway has an error: an error of
-- the gateway is on none of them.
pub earlier_steps_clear_iff :
    (s : EnvironmentSpec)
    → (IsStepClear (field_errors s) 1
        × IsStepClear (field_errors s) 2
        × IsStepClear (field_errors s) 3
        × IsStepClear (field_errors s) 4
        × IsStepClear (field_errors s) 5)
      ↔ ((k : FieldKey) → k ≢ subnet_gateway_ip → get k (field_errors s) ≡ none)
earlier_steps_clear_iff s = earlier_silent_iff (field_errors s) (field_errors-IsTold s)
