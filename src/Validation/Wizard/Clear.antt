-- ===== src/Validation/Wizard/Clear.antt =====
-- When the wizard's checks report nothing.
use infra_orch_studio.Common.{
  ◌≡◌, ◌↔◌, Bool, true, false, not, ◌&&◌, [], String, Text, truthy, given, is_some, arith,
}
use infra_orch_studio.Js.Text.{trim}
use infra_orch_studio.Js.Object.{put-ne-nil}
use infra_orch_studio.Api.{EnvironmentSpec}
use infra_orch_studio.Validation.Wizard.{
  FieldKey, field_key, Errors, required, push, set_if, required_errors, entered_cidr, both_contain,
  cidr_errors, gateway_entered, gateway_address, gateway_inside, gateway_errors,
}

abbrev pub IsFilled : Text → Type 0
IsFilled t = truthy (trim t) ≡ true

pub push-eq-nil_iff :
    (k : FieldKey) (v : Text) (m : String) (e : Errors)
    → given m ≡ true
    → (push k (required v m) e ≡ []) ↔ (IsFilled v × (e ≡ []))
unfolding push required
push-eq-nil_iff k v m e h = ground (arith, put-ne-nil k m e)

pub set_if-eq-nil_iff :
    (t : Bool) (k : FieldKey) (m : String) (e : Errors)
    → (set_if t k m e ≡ []) ↔ ((t ≡ false) × (e ≡ []))
unfolding set_if
set_if-eq-nil_iff t k m e = ground (arith, put-ne-nil k m e)

pub required_errors-eq-nil_iff :
    (s : EnvironmentSpec) (e : Errors)
    → (required_errors s e ≡ []) ↔ (
        IsFilled s.tenant_name
        × IsFilled s.environment_name
        × IsFilled s.network.name
        × IsFilled s.network.cidr
        × IsFilled s.subnet.name
        × IsFilled s.subnet.cidr
        × (e ≡ []))
unfolding required_errors
required_errors-eq-nil_iff s e = grind (arith, push-eq-nil_iff)

pub cidr_errors-eq-nil_iff :
    (s : EnvironmentSpec) (e : Errors)
    → (cidr_errors s e ≡ []) ↔ (
        (truthy (trim s.network.cidr) && not (is_some (entered_cidr s.network.cidr)) ≡ false)
        × (truthy (trim s.subnet.cidr) && not (is_some (entered_cidr s.subnet.cidr)) ≡ false)
        × (both_contain (entered_cidr s.network.cidr) (entered_cidr s.subnet.cidr) ≡ true)
        × (e ≡ []))
unfolding cidr_errors
cidr_errors-eq-nil_iff s e = grind (arith, set_if-eq-nil_iff)

pub gateway_errors-eq-nil_iff :
    (s : EnvironmentSpec) (e : Errors)
    → (gateway_errors s e ≡ []) ↔ (
        (gateway_entered s.subnet.gateway_ip && not (is_some (gateway_address s.subnet.gateway_ip))
          ≡ false)
        × (gateway_inside (entered_cidr s.subnet.cidr) (gateway_address s.subnet.gateway_ip) ≡ true)
        × (e ≡ []))
unfolding gateway_errors
gateway_errors-eq-nil_iff s e = grind (arith, set_if-eq-nil_iff, put-ne-nil)
