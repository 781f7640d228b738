-- ===== src/Validation/Wizard.antt =====
-- `validateEnvironmentSpecForWizard` of web/src/utils/environmentValidation.ts. The keys of the
-- object `fieldErrors` are a data type: `instance_field i count` stands for `instances[i].count`.
pub mod Clear
pub mod Accepts
pub mod Steps
use mathlib.Core.Bool.{decide, decide_iff}
use native.Mathlib.Decide.{ℕ_discrete}
use infra_orch_studio.Common.{
  ℕ, suc, ◌≡◌, refl, ◌≢◌, ◌↔◌, Bool, true, false, not, ◌&&◌, ◌||◌, Option, none, some, List, [],
  ◌∷◌, map, String, Text, truthy, given, ltb, ◌==◌, if◌then◌else◌, length, any, keep, is_some,
  arith,
}
use infra_orch_studio.Js.Text.{trim}
use infra_orch_studio.Js.Number.{Number, of_ℕ, is_finite, lt, add}
use infra_orch_studio.Js.Object.{Key, nat_key, Object, get, put, keys}
use infra_orch_studio.Api.{EnvironmentSpec, Instance}
use infra_orch_studio.Validation.Cidr.{
  Cidr, parse_ipv4_cidr, parse_ipv4_address, cidr_contains, cidr_contains_address,
}

pub data InstanceField : Type 0 where
  name image flavor count ssh_key_name : InstanceField

pub data FieldKey : Type 0 where
  tenant_name environment_name network_name network_cidr subnet_name subnet_cidr : FieldKey
  subnet_gateway_ip instances security_groups : FieldKey
  instance_field : ℕ → InstanceField → FieldKey

pub FieldKey-discrete : Discrete FieldKey
FieldKey-discrete = hlevel ℕ_discrete

instance abbrev pub field_key : Key FieldKey
field_key = record {
  same = λ a b. decide (FieldKey-discrete a b);
  same_iff = λ a b. decide_iff (FieldKey-discrete a b);
}

abbrev pub Errors : Type 0
Errors = Object FieldKey String

unfoldable pub required : Text → String → Option String
required value message = if truthy (trim value) then none else some message

-- The local function `push`: an empty message is not stored.
unfoldable pub push : FieldKey → Option String → Errors → Errors
push key none errors = errors
push key (some message) errors = if given message then put key message errors else errors

-- `if (test) fieldErrors[key] = message`
unfoldable pub set_if : Bool → FieldKey → String → Errors → Errors
set_if test key message errors = if test then put key message errors else errors

unfoldable pub required_errors : EnvironmentSpec → Errors → Errors
required_errors spec e =
    let e = push tenant_name (required spec.tenant_name "Tenant name is required.") e in
    let e =
      push environment_name (required spec.environment_name "Environment name is required.") e in
    let e = push network_name (required spec.network.name "Network name is required.") e in
    let e = push network_cidr (required spec.network.cidr "Network CIDR is required.") e in
    let e = push subnet_name (required spec.subnet.name "Subnet name is required.") e in
    push subnet_cidr (required spec.subnet.cidr "Subnet CIDR is required.") e

-- `text.trim() ? parseIPv4Cidr(text) : null`
unfoldable pub entered_cidr : Text → Option Cidr
entered_cidr value = if truthy (trim value) then parse_ipv4_cidr value else none

unfoldable pub both_contain : Option Cidr → Option Cidr → Bool
both_contain (some network) (some subnet) = cidr_contains network subnet
both_contain _ _ = true

unfoldable pub cidr_errors : EnvironmentSpec → Errors → Errors
cidr_errors spec e =
    let network = entered_cidr spec.network.cidr in
    let subnet = entered_cidr spec.subnet.cidr in
    let e =
      set_if (truthy (trim spec.network.cidr) && not (is_some network)) network_cidr
        "Network CIDR must be a valid IPv4 CIDR." e in
    let e =
      set_if (truthy (trim spec.subnet.cidr) && not (is_some subnet)) subnet_cidr
        "Subnet CIDR must be a valid IPv4 CIDR." e in
    set_if (not (both_contain network subnet)) subnet_cidr
      "Subnet CIDR must be within network CIDR." e

-- `spec.subnet.gateway_ip?.trim()` as a condition, and the address behind it.
unfoldable pub gateway_entered : Option Text → Bool
gateway_entered none = false
gateway_entered (some value) = truthy (trim value)

unfoldable pub gateway_address : Option Text → Option ℕ
gateway_address none = none
gateway_address (some value) = if truthy (trim value) then parse_ipv4_address value else none

unfoldable pub gateway_inside : Option Cidr → Option ℕ → Bool
gateway_inside (some subnet) (some gateway) = cidr_contains_address subnet gateway
gateway_inside _ _ = true

unfoldable pub gateway_errors : EnvironmentSpec → Errors → Errors
gateway_errors spec e =
    let gateway = gateway_address spec.subnet.gateway_ip in
    if gateway_entered spec.subnet.gateway_ip && not (is_some gateway)
    then put subnet_gateway_ip "Gateway IP must be a valid IPv4 address." e
    else set_if (not (gateway_inside (entered_cidr spec.subnet.cidr) gateway)) subnet_gateway_ip
        "Gateway IP must be within subnet CIDR." e

unfoldable pub group_errors : List Instance → Errors → Errors
group_errors items e =
    let e =
      set_if (length items == 0) instances "At least one instance definition is required." e in
    set_if (ltb 2 (length items)) instances
      "The current product scope supports up to two instance groups." e

unfoldable pub total_from : Number → List Instance → Number
total_from acc [] = acc
total_from acc (item ∷ items) =
    total_from (add acc (if is_finite item.count then item.count else of_ℕ 0)) items

unfoldable pub count_errors : ℕ → Number → Errors → Errors
count_errors index n e =
    if not (is_finite n) || lt n (of_ℕ 1)
    then put (instance_field index count) "Count must be at least 1." e
    else set_if (lt (of_ℕ 2) n) (instance_field index count) "Count must be at most 2." e

-- `item.ssh_key_name !== undefined && item.ssh_key_name !== '' && item.ssh_key_name.trim() === ''`
unfoldable pub blank_key : Option Text → Bool
blank_key none = false
blank_key (some value) = truthy value && not (truthy (trim value))

-- The body of `spec.instances.forEach`.
unfoldable pub instance_errors : ℕ → Instance → Errors → Errors
instance_errors index item e =
    let e = push (instance_field index name) (required item.name "Instance name is required.") e in
    let e = push (instance_field index image) (required item.image "Image is required.") e in
    let e = push (instance_field index flavor) (required item.flavor "Flavor is required.") e in
    let e = count_errors index item.count e in
    set_if (blank_key item.ssh_key_name) (instance_field index ssh_key_name)
      "SSH key name must not be blank." e

unfoldable pub instances_errors : ℕ → List Instance → Errors → Errors
instances_errors index [] e = e
instances_errors index (item ∷ items) e =
    instances_errors (suc index) items (instance_errors index item e)

-- `spec.security_groups || []`
unfoldable pub groups_of : Option (List Text) → List Text
groups_of none = []
groups_of (some groups) = groups

unfoldable pub field_errors : EnvironmentSpec → Errors
field_errors spec =
    let e = required_errors spec [] in
    let e = cidr_errors spec e in
    let e = gateway_errors spec e in
    let e = group_errors spec.instances e in
    let e = instances_errors 0 spec.instances e in
    let e =
      set_if (lt (of_ℕ 2) (total_from (of_ℕ 0) spec.instances)) instances
        "The current product scope supports up to two total instances." e in
    set_if (any (λ item. not (truthy (trim item))) (groups_of spec.security_groups)) security_groups
      "Remove empty security group values before review." e

-- `key === 'instances' || key.startsWith('instances[')`
unfoldable pub on_instances : FieldKey → Bool
on_instances instances = true
on_instances (instance_field _ _) = true
on_instances tenant_name = false
on_instances _ = false

-- `stepMap`, in the order in which `Object.entries` lists numbers.
unfoldable pub step_keys : Errors → List (ℕ × List FieldKey)
step_keys errors =
    (1, tenant_name ∷ [])
    ∷ (2, environment_name ∷ [])
    ∷ (3, network_name ∷ network_cidr ∷ subnet_name ∷ subnet_cidr ∷ [])
    ∷ (4, keep on_instances (keys errors))
    ∷ (5, security_groups ∷ [])
    ∷ (6, keys errors)
    ∷ []

-- `keys.map((key) => fieldErrors[key]).filter(Boolean)`
unfoldable pub messages : Errors → List FieldKey → List String
messages errors [] = []
messages errors (key ∷ rest) = elim (get key errors) [
  | none ↦ messages errors rest
  | some m ↦ if given m then m ∷ messages errors rest else messages errors rest
]

unfoldable pub fill_steps :
    Errors → List (ℕ × List FieldKey) → Object ℕ (List String) → Object ℕ (List String)
fill_steps errors [] steps = steps
fill_steps errors ((step, ks) ∷ rest) steps =
    fill_steps errors rest (put step (messages errors ks) steps)

unfoldable pub empty_steps : Object ℕ (List String)
empty_steps = (0, []) ∷ (1, []) ∷ (2, []) ∷ (3, []) ∷ (4, []) ∷ (5, []) ∷ (6, []) ∷ []

unfoldable pub step_errors : Errors → Object ℕ (List String)
step_errors errors = fill_steps errors (step_keys errors) empty_steps

pub record ValidationResult : Type 0 where
  pub field_errors : Errors
  pub step_errors : Object ℕ (List String)

unfoldable pub validate_for_wizard : EnvironmentSpec → ValidationResult
validate_for_wizard spec =
    let errors = field_errors spec in
    record { field_errors = errors; step_errors = step_errors errors }
