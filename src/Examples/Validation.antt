-- ===== src/Examples/Validation.antt =====
-- web/src/utils/environmentValidation.ts on concrete blocks, addresses and environments.
use infra_orch_studio.Common.{
  ℕ, ◌≡◌, ◌≢◌, refl, ◌↔◌, ◌^◌, ◌<◌, true, false, none, some, [], ◌∷◌, units, arith,
}
use infra_orch_studio.Js.Object.{get}
use infra_orch_studio.Examples.{evaluation}
use infra_orch_studio.Api.{EnvironmentSpec}
use infra_orch_studio.View.{empty_environment_spec}
use infra_orch_studio.Validation.Cidr.{
  Cidr, parse_ipv4_cidr, parse_ipv4_address, cidr_contains, cidr_contains_address,
}
use infra_orch_studio.Validation.Cidr.Blocks.{
  IsCidr, InBlock, cidr_contains_iff, cidr_contains_address_iff,
}
use infra_orch_studio.Validation.Cidr.Parsing.{parse_ipv4_cidr-IsCidr, parse_ipv4_address-lt}
use infra_orch_studio.Validation.Cidr.RoundTrip.{show_cidr, parse_ipv4_cidr-show_cidr}
use infra_orch_studio.Validation.Wizard.{field_errors, subnet_gateway_ip, FieldKey, field_key}
use infra_orch_studio.Validation.Wizard.Accepts.{IsAcceptable, field_errors-eq-nil_iff}
use infra_orch_studio.Validation.Wizard.Steps.{IsStepClear, earlier_steps_clear_iff}

-- 10.24.0.0/24 and 10.24.0.128/25
abbrev network : Cidr
network = record { address = 169345024; bits = 24 }

abbrev subnet : Cidr
subnet = record { address = 169345152; bits = 25 }

network-IsCidr : IsCidr network
network-IsCidr = record { address_fits = omega arith; bits_fit = omega arith }

subnet-IsCidr : IsCidr subnet
subnet-IsCidr = record { address_fits = omega arith; bits_fit = omega arith }

parse_tests :
    (parse_ipv4_cidr (units " 10.24.0.0/24 ") ≡ some network)
    × (parse_ipv4_cidr (units "10.24.0.128/25") ≡ some subnet)
    × (parse_ipv4_cidr (units "10.24.0.0/33") ≡ none)
    × (parse_ipv4_cidr (units "10.24.0/24") ≡ none)
    × (parse_ipv4_cidr (units "10.24.0.256/24") ≡ none)
    × (parse_ipv4_cidr (units "10.24.0.0") ≡ none)
    × (parse_ipv4_cidr (units "/24") ≡ none)
    × (parse_ipv4_address (units "10.24.0.128") ≡ some 169345152)
    × (parse_ipv4_address (units "10.24.x.128") ≡ none)
unfolding evaluation
parse_tests = (refl, refl, refl, refl, refl, refl, refl, refl, refl)

-- The parser is lenient: an empty prefix length or octet is 0, and a second slash is ignored.
lenient_tests :
    (parse_ipv4_cidr (units "10.0.0.0/") ≡ some (record { address = 167772160; bits = 0 }))
    × (parse_ipv4_cidr (units "10.24.0.0/24/8") ≡ some network)
    × (parse_ipv4_address (units "10...1") ≡ some 167772161)
unfolding evaluation
lenient_tests = (refl, refl, refl)

contains_tests :
    (cidr_contains network subnet ≡ true)
    × (cidr_contains subnet network ≡ false)
    × (cidr_contains_address subnet 169345025 ≡ false)
unfolding evaluation
contains_tests = (refl, refl, refl)

cidr_contains_iff_example :
    (cidr_contains network subnet ≡ true)
    ↔ ((x : ℕ) → x < 2 ^ 32 → InBlock subnet x → InBlock network x)
cidr_contains_iff_example = cidr_contains_iff network subnet network-IsCidr subnet-IsCidr

cidr_contains_address_iff_example :
    (cidr_contains_address subnet 169345153 ≡ true) ↔ InBlock subnet 169345153
cidr_contains_address_iff_example =
    cidr_contains_address_iff subnet 169345153 subnet-IsCidr (omega arith)

parse_cidr-show_example : parse_ipv4_cidr (show_cidr subnet) ≡ some subnet
parse_cidr-show_example = parse_ipv4_cidr-show_cidr subnet subnet-IsCidr

parse_ipv4_cidr-IsCidr_example : IsCidr subnet
unfolding evaluation
parse_ipv4_cidr-IsCidr_example = parse_ipv4_cidr-IsCidr (units "10.24.0.128/25") {c = subnet} refl

parse_address-lt_example : 169345153 < 2 ^ 32
unfolding evaluation
parse_address-lt_example = parse_ipv4_address-lt (units "10.24.0.129") {x = 169345153} refl

-- The environment of the empty form, and one whose gateway is outside the subnet.
abbrev misrouted : EnvironmentSpec
misrouted = record empty_environment_spec {
  subnet = record (empty_environment_spec.subnet) { gateway_ip = some (units "10.25.0.1") };
}

acceptance_tests :
    (field_errors empty_environment_spec ≡ [])
    × (field_errors misrouted ≡ (subnet_gateway_ip, "Gateway IP must be within subnet CIDR.") ∷ [])
unfolding evaluation
acceptance_tests = (refl, refl)

field_errors-eq-nil_example : (field_errors misrouted ≡ []) ↔ IsAcceptable misrouted
field_errors-eq-nil_example = field_errors-eq-nil_iff misrouted

earlier_steps_clear_example :
    (IsStepClear (field_errors misrouted) 1
      × IsStepClear (field_errors misrouted) 2
      × IsStepClear (field_errors misrouted) 3
      × IsStepClear (field_errors misrouted) 4
      × IsStepClear (field_errors misrouted) 5)
    ↔ ((k : FieldKey) → k ≢ subnet_gateway_ip → get k (field_errors misrouted) ≡ none)
earlier_steps_clear_example = earlier_steps_clear_iff misrouted
