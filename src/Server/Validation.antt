-- ===== src/Server/Validation.antt =====
-- internal/validation/environment.go: how the server normalizes and validates the spec of an
-- environment. A Go text is taken as its UTF-16 code units, and an `int` as its 64 bits, a number below 2 ^ 64.
pub mod Trim
pub mod Addresses
pub mod Decode
pub mod Instances
pub mod Network
pub mod Accepts
pub mod Limits
use infra_orch_studio.Common.{
  ℕ, zero, suc, ◌+◌, ◌-◌, ◌*◌, ◌/◌, ◌%◌, ◌^◌, Bool, true, false, not, ◌&&◌, ◌||◌, Option, none,
  some, List, [], ◌∷◌, ◌++◌, map, String, Text, units, truthy, ltb, leb, ◌==◌, if◌then◌else◌,
  length, all, inl, inr, ◌⊎◌,
}
use mathlib.Core.List.{reverse}
use infra_orch_studio.Js.Text.{split}
use infra_orch_studio.Server.Go.{
  Prefix, contains, decimal_from, fields_address, is_digit, is_go_space, join_fields, masked,
  parse_addr4, parse_field, parse_prefix4, pieces_prefix, trim_left, trim_space, with_length,
}

pub record GoInstance : Type 0 where
  pub name : Text
  pub image : Text
  pub flavor : Text
  pub ssh_key_name : Text
  pub count : ℕ

pub record GoSpec : Type 0 where
  pub environment_name : Text
  pub tenant_name : Text
  pub network_name : Text
  pub network_cidr : Text
  pub subnet_name : Text
  pub subnet_cidr : Text
  pub gateway_ip : Text
  pub enable_dhcp : Bool
  pub instances : List GoInstance
  pub security_groups : List Text

unfoldable pub normalize_instance : GoInstance → GoInstance
normalize_instance i = record i {
  name = trim_space i.name;
  image = trim_space i.image;
  flavor = trim_space i.flavor;
  ssh_key_name = trim_space i.ssh_key_name;
}

unfoldable pub normalize_environment_spec : GoSpec → GoSpec
normalize_environment_spec s = record s {
  environment_name = trim_space s.environment_name;
  tenant_name = trim_space s.tenant_name;
  network_name = trim_space s.network_name;
  network_cidr = trim_space s.network_cidr;
  subnet_name = trim_space s.subnet_name;
  subnet_cidr = trim_space s.subnet_cidr;
  gateway_ip = trim_space s.gateway_ip;
  instances = map normalize_instance s.instances;
  security_groups = map trim_space s.security_groups;
}

-- An error, or the value behind it: `return fmt.Errorf(…)` ends the validation.
abbrev pub Checked {ℓ} : Type ℓ → Type ℓ
Checked A = Text ⊎ A

abbrev pub is_blank : Text → Bool
is_blank t = not (truthy (trim_space t))

-- `if test { return error }`, and what follows.
abbrev pub unless {ℓ} : {A : Type ℓ} → Bool → Text → Checked A → Checked A
unless test message rest = if test then inl message else rest

-- `x <= 0` and `x > 2` for an `int`.
abbrev pub not_positive : ℕ → Bool
not_positive x = x == 0 || leb (2 ^ 63) x

abbrev pub above_two : ℕ → Bool
above_two x = ltb 2 x && ltb x (2 ^ 63)

abbrev pub prefix_or_error : String → Option Prefix → Checked Prefix
prefix_or_error field none = inl (units field ++ units " must be a valid IPv4 CIDR")
prefix_or_error field (some prefix) = inr (masked prefix)

-- `parseIPv4CIDR`
unfoldable pub parse_ipv4_prefix : Text → String → Checked Prefix
parse_ipv4_prefix value field = prefix_or_error field (parse_prefix4 (trim_space value))

abbrev pub instance_label : (ℕ → Text) → ℕ → String → Text
instance_label show index rest = units "instances[" ++ (show index ++ (units "]" ++ units rest))

-- The loop over the instances: `totalCount`, which wraps around.
unfoldable pub check_instances : (ℕ → Text) → ℕ → ℕ → List GoInstance → Checked ℕ
check_instances show index total [] = inr total
check_instances show index total (inst ∷ rest) =
    let next = check_instances show (suc index) ((total + inst.count) % 2 ^ 64) rest in
    unless (is_blank inst.name) (instance_label show index ".name is required") (
      unless (is_blank inst.image) (instance_label show index ".image is required") (
        unless (is_blank inst.flavor) (instance_label show index ".flavor is required") (
          unless (not_positive inst.count) (instance_label show index ".count must be >= 1") (
            unless (truthy inst.ssh_key_name && is_blank inst.ssh_key_name)
              (instance_label show index ".ssh_key_name must not be blank") next))))

unfoldable pub check_groups : (ℕ → Text) → ℕ → List Text → Checked (Unit {0})
check_groups show index [] = inr tt
check_groups show index (group ∷ groups) =
    let next = check_groups show (suc index) groups in
    unless (is_blank group)
      (units "security_groups[" ++ (show index ++ units "] must not be empty")) next

-- `err != nil || !gateway.Is4()`, and the test that the gateway is in the subnet.
abbrev pub gateway_or_error : Prefix → Option ℕ → Checked (Unit {0})
gateway_or_error subnet none = inl (units "subnet.gateway_ip must be a valid IPv4 address")
gateway_or_error subnet (some gateway) =
    unless (not (contains subnet gateway)) (units "subnet.gateway_ip must be within subnet.cidr")
      (inr tt)

unfoldable pub check_gateway : Prefix → Text → Checked (Unit {0})
check_gateway subnet gateway_ip =
    if is_blank gateway_ip
    then inr tt
    else gateway_or_error subnet (parse_addr4 (trim_space gateway_ip))

abbrev pub then_check {ℓ κ} : {A : Type ℓ} {B : Type κ} → Checked A → (A → Checked B) → Checked B
then_check (inl message) next = inl message
then_check (inr a) next = next a

-- The tests of the two blocks, the gateway and the groups.
unfoldable pub check_network : (ℕ → Text) → GoSpec → Checked (Unit {0})
check_network show s = unless (is_blank s.network_cidr) (units "network.cidr is required") (
    then_check (parse_ipv4_prefix s.network_cidr "network.cidr") (λ network.
      unless (is_blank s.subnet_cidr) (units "subnet.cidr is required") (
        then_check (parse_ipv4_prefix s.subnet_cidr "subnet.cidr") (λ subnet.
          unless (not (contains network subnet.addr) || ltb subnet.bits network.bits)
            (units "subnet.cidr must be within network.cidr")
            (then_check (check_gateway subnet s.gateway_ip)
              (λ _. check_groups show 0 s.security_groups))))))

unfoldable pub validate_environment_spec : (ℕ → Text) → GoSpec → Checked (Unit {0})
validate_environment_spec show s =
    unless (is_blank s.environment_name) (units "environment_name is required") (
      unless (is_blank s.tenant_name) (units "tenant_name is required") (
        unless (is_blank s.network_name) (units "network.name is required") (
          unless (is_blank s.subnet_name) (units "subnet.name is required") (
            unless (length s.instances == 0) (units "instances must have at least 1 item") (
              unless (ltb 2 (length s.instances)) (units "instances supports up to 2 items in MVP")
                (then_check (check_instances show 0 0 s.instances) (λ total.
                  unless (above_two total) (units "total instance count supports up to 2 in MVP")
                    (check_network show s))))))))

-- `normalizeAndValidateEnvironmentSpecForMutation` of internal/api/environments.go, with
-- `validateEnvironmentSpecStrict` of internal/api/jobs.go at its end.
unfoldable pub normalize_and_validate : (ℕ → Text) → GoSpec → Checked GoSpec
normalize_and_validate show s =
    let normal = normalize_environment_spec s in
    then_check (validate_environment_spec show normal) (λ _.
      unless (not (truthy normal.network_cidr)) (units "network.cidr is required")
        (unless (not (truthy normal.subnet_cidr)) (units "subnet.cidr is required") (inr normal)))
