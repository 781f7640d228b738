-- ===== src/Server/Validation/Accepts.antt =====
-- What the wizard accepts is accepted by the server.
use infra_orch_studio.Common.{ℕ, ◌≡◌, refl, Text, inr}
use infra_orch_studio.Api.{EnvironmentSpec}
use infra_orch_studio.Validation.Wizard.Accepts.{total_from-IsAcceptable, IsAcceptable}
use infra_orch_studio.Server.Validation.{
  normalize_environment_spec, validate_environment_spec, normalize_and_validate,
}
use infra_orch_studio.Server.Validation.Decode.{decode_spec, IsWritten, not_blank}
use infra_orch_studio.Server.Validation.Instances.{instances_pass, sizes_pass}
use infra_orch_studio.Server.Validation.Network.{network_passes, cidr_filled}

-- An environment that the wizard accepts, whose blocks and gateway are written in dotted decimals,
-- whose counts are whole and whose texts have no U+0085, is accepted by the server, which stores it
-- with the spaces around its texts removed.
pub normalize_and_validate-IsAcceptable :
    (show : ℕ → Text) (s : EnvironmentSpec)
    → IsAcceptable s
    → IsWritten s
    → normalize_and_validate show (decode_spec s) ≡ inr (normalize_environment_spec (decode_spec s))
unfolding normalize_and_validate validate_environment_spec normalize_environment_spec decode_spec
normalize_and_validate-IsAcceptable show s ok written =
    let (total, passed, fits) =
      instances_pass show s.instances ok.at_least_one ok.at_most_two written.instances ok.each
        (total_from-IsAcceptable s ok) in
    let (some_items, few_items) = sizes_pass s.instances ok.at_least_one ok.at_most_two in
    rw
      (
        not_blank s.environment_name written.environment_name ok.environment,
        not_blank s.tenant_name written.tenant_name ok.tenant,
        not_blank s.network.name written.network_name ok.network_named,
        not_blank s.subnet.name written.subnet_name ok.subnet_named,
        some_items,
        few_items,
        passed,
        fits,
        network_passes show s ok written,
        cidr_filled s.network.cidr written.network written.network_fits written.network_cidr,
        cidr_filled s.subnet.cidr written.subnet written.subnet_fits written.subnet_cidr,
      )
      refl
