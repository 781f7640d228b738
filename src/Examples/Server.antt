-- ===== src/Examples/Server.antt =====
-- internal/validation/environment.go on concrete specs.
use infra_orch_studio.Common.{
  ℕ, ◌-◌, ◌^◌, ◌≤◌, ◌≡◌, refl, ap, ◌⊎◌, inl, inr, none, [], ◌∷◌, Text, units, All, arith, false,
  length,
}
use infra_orch_studio.Examples.{evaluation}
use infra_orch_studio.View.{empty_environment_spec, build_impact_summary}
use infra_orch_studio.Js.Number.{Number, whole}
use infra_orch_studio.Validation.Cidr.RoundTrip.{show_number}
use infra_orch_studio.Server.Validation.Instances.{whole-of_ℕ}
use infra_orch_studio.Server.Review.{impact_of, review_signals}
use infra_orch_studio.Server.Review.Agree.{impacts_agree}
use infra_orch_studio.Validation.Wizard.{field_errors}
use infra_orch_studio.Validation.Wizard.Accepts.{IsAcceptable, field_errors-eq-nil_iff}
use infra_orch_studio.Server.Go.{trim_space, parse_prefix4, parse_addr4}
use infra_orch_studio.Server.Validation.{
  GoInstance, GoSpec, normalize_environment_spec, normalize_and_validate,
}
use infra_orch_studio.Server.Validation.Trim.{IsPortable-all}
use infra_orch_studio.Server.Validation.Decode.{decode_spec, IsWritten}
use infra_orch_studio.Server.Validation.Accepts.{normalize_and_validate-IsAcceptable}
use infra_orch_studio.Server.Validation.Limits.{sum_of, IsPositive, accepted_total}

abbrev show : ℕ → Text
show n = units "0"

empty-IsAcceptable : IsAcceptable empty_environment_spec
unfolding evaluation
empty-IsAcceptable = (field_errors-eq-nil_iff empty_environment_spec).0 refl

empty-IsWritten : IsWritten empty_environment_spec
unfolding evaluation
empty-IsWritten = record {
  environment_name = IsPortable-all (units "edge-payments-staging") refl;
  tenant_name = IsPortable-all (units "tenant-prod-us-03") refl;
  network_name = IsPortable-all (units "vnet-core-a") refl;
  subnet_name = IsPortable-all (units "snet-app-03") refl;
  network = record { address = 169345024; bits = 24 };
  network_fits = record { address_fits = omega arith; bits_fit = omega arith };
  network_cidr = refl;
  subnet = record { address = 169345024; bits = 25 };
  subnet_fits = record { address_fits = omega arith; bits_fit = omega arith };
  subnet_cidr = refl;
  gateway = inr (169345025, omega arith, refl);
  instances = (
    record {
      name = IsPortable-all (units "app-01") refl;
      image = IsPortable-all (units "ubuntu-22.04") refl;
      flavor = IsPortable-all (units "m1.medium") refl;
      size = 2;
      sized = refl;
    },
    tt,
  );
  groups = (IsPortable-all (units "sg-web") refl, (IsPortable-all (units "sg-data") refl, tt));
}

normalize_and_validate-IsAcceptable_example :
    normalize_and_validate show (decode_spec empty_environment_spec)
    ≡ inr (normalize_environment_spec (decode_spec empty_environment_spec))
normalize_and_validate-IsAcceptable_example =
    normalize_and_validate-IsAcceptable show empty_environment_spec empty-IsAcceptable
      empty-IsWritten

abbrev counted : ℕ → GoInstance
counted n = record {
  name = units "app";
  image = units "ubuntu";
  flavor = units "small";
  ssh_key_name = [];
  count = n;
}

-- Two instances with the greatest count of 64 bits.
abbrev huge : GoSpec
huge = record (decode_spec empty_environment_spec) {
  instances = counted (2 ^ 63 - 1) ∷ counted (2 ^ 63 - 1) ∷ [];
}

accepted_total_example :
    (1 ≤ 2)
    × (2 ≤ 2)
    × All IsPositive huge.instances
    × ((sum_of huge.instances ≤ 2) ⊎ (2 ^ 63 ≤ sum_of huge.instances))
unfolding evaluation
accepted_total_example = accepted_total show huge refl

go_tests :
    (parse_prefix4 (units "10.0.0.0/") ≡ none)
    × (parse_prefix4 (units "10.0.0.0/024") ≡ none)
    × (parse_addr4 (units "10.0.0.256") ≡ none)
    × (parse_addr4 (units "10.0..1") ≡ none)
    × (trim_space (units " a ") ≡ units "a")
unfolding evaluation
go_tests = (refl, refl, refl, refl, refl)

-- A name of U+0085 alone is a name for the wizard, and blank for the server.
blank_name_test :
    (field_errors (record empty_environment_spec { tenant_name = 0x85 ∷ [] }) ≡ [])
    × (normalize_and_validate show
          (decode_spec (record empty_environment_spec { tenant_name = 0x85 ∷ [] }))
        ≡ inl (units "tenant_name is required"))
unfolding evaluation
blank_name_test = (refl, refl)

abbrev decimal : Number → Text
decimal n = show_number (whole n)

tenant_trimmed : trim_space empty_environment_spec.tenant_name ≡ empty_environment_spec.tenant_name
unfolding evaluation
tenant_trimmed = refl

network_trimmed :
    trim_space empty_environment_spec.network.name ≡ empty_environment_spec.network.name
unfolding evaluation
network_trimmed = refl

subnet_trimmed : trim_space empty_environment_spec.subnet.name ≡ empty_environment_spec.subnet.name
unfolding evaluation
subnet_trimmed = refl

impacts_agree_example :
    ((build_impact_summary decimal empty_environment_spec "create" false).downtime
      ≡ (impact_of show_number
          (normalize_environment_spec (decode_spec empty_environment_spec))
          "create").downtime)
    × ((build_impact_summary decimal empty_environment_spec "create" false).blast_radius
        ≡ (impact_of show_number
            (normalize_environment_spec (decode_spec empty_environment_spec))
            "create").blast_radius)
    × ((build_impact_summary decimal empty_environment_spec "create" false).cost_delta
        ≡ (impact_of show_number
            (normalize_environment_spec (decode_spec empty_environment_spec))
            "create").cost_delta)
impacts_agree_example =
    impacts_agree decimal show_number empty_environment_spec "create"
      (λ n. ap show_number (whole-of_ℕ n)) empty-IsAcceptable empty-IsWritten tenant_trimmed
      network_trimmed subnet_trimmed

review_tests :
    ((impact_of show_number (decode_spec empty_environment_spec) "create").downtime
      ≡ units "Medium")
    × ((impact_of show_number (decode_spec empty_environment_spec) "create").cost_delta
        ≡ units "Estimated footprint includes 2 instances and 2 security references.")
    × (length (review_signals show_number (decode_spec empty_environment_spec) "destroy" none) ≡ 4)
unfolding evaluation
review_tests = (refl, refl, refl)
