-- ===== src/SpecForm/Sizes.antt =====
-- The number of instances under the inputs of web/src/components/EnvironmentSpecForm.tsx.
use infra_orch_studio.Common.{
  ℕ, zero, suc, ◌-◌, ◌≤◌, ◌<◌, ◌≡◌, refl, true, List, [], ◌∷◌, Text, length, length-append, arith,
  ap,
}
use infra_orch_studio.Api.{Instance, EnvironmentSpec}
use infra_orch_studio.SpecForm.{
  InstancePatch, update_instance, remove_at, Input, environment_name, instance_input,
  remove_instance, add_instance, apply_input, is_offered, new_instance,
}

length-update_instance :
    (items : List Instance) (i : ℕ) (p : InstancePatch)
    → length (update_instance items i p) ≡ length items
unfolding update_instance
length-update_instance [] i p = refl
length-update_instance (item ∷ items) zero p = refl
length-update_instance (item ∷ items) (suc i) p = ap suc (length-update_instance items i p)

length-remove_at :
    (items : List Instance) (i : ℕ)
    → i < length items
    → length (remove_at items i) ≡ length items - 1
unfolding remove_at
length-remove_at [] i h = elim h [ ]
length-remove_at (item ∷ items) zero h = omega arith
length-remove_at (item ∷ items) (suc i) h = omega (arith, length-remove_at items i (omega arith))

-- Every input that the form offers keeps one or two instances.
pub apply_input-size :
    (show : ℕ → Text) (spec : EnvironmentSpec) (input : Input)
    → is_offered spec input ≡ true
    → 1 ≤ length spec.instances
    → length spec.instances ≤ 2
    → (1 ≤ length (apply_input show spec input).instances)
      × (length (apply_input show spec input).instances ≤ 2)
unfolding apply_input is_offered
apply_input-size show spec (environment_name t) offered lo hi = (lo, hi)
apply_input-size show spec (instance_input i p) offered lo hi =
    omega (arith, length-update_instance spec.instances i p)
apply_input-size show spec (remove_instance i) offered lo hi =
    ground (arith, length-remove_at spec.instances i)
apply_input-size show spec add_instance offered lo hi =
    ground (arith, length-append spec.instances (new_instance show (length spec.instances) ∷ []))
apply_input-size show spec _ offered lo hi = (lo, hi)
