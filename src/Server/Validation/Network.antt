-- ===== src/Server/Validation/Network.antt =====
-- The blocks and the gateway that the wizard accepts pass the server's tests.
use infra_orch_studio.Common.{
  ℕ, ◌^◌, ◌<◌, ◌≡◌, refl, sym, subst, ap, ◌∙◌, true, Option, some, [], ◌∷◌, ◌++◌, Text, truthy, inl,
  inr, arith,
}
use mathlib.Core.Bool.{true≢false}
use infra_orch_studio.Js.Text.{trim}
use infra_orch_studio.Api.{EnvironmentSpec}
use infra_orch_studio.Js.Text.Laws.{trim-IsTight}
use infra_orch_studio.Validation.Cidr.{Cidr, parse_ipv4_cidr}
use infra_orch_studio.Validation.Cidr.Blocks.{IsCidr, InBlock}
use infra_orch_studio.Validation.Cidr.RoundTrip.{
  show_cidr, show_address, truthy-show_address, show_address-IsTight, parse_ipv4_cidr-show_cidr,
  parse_ipv4_address-show_address,
}
use infra_orch_studio.Validation.Wizard.{groups_of, gateway_entered, gateway_address}
use infra_orch_studio.Validation.Wizard.Accepts.{IsAcceptable, IsGateway}
use infra_orch_studio.Server.Go.{trim_space, trim_left, masked}
use infra_orch_studio.Server.Validation.{
  normalize_environment_spec, is_blank, check_gateway, check_network,
}
use infra_orch_studio.Server.Validation.Addresses.{
  prefix_of, parse_addr4-show_address, trim_space-show_address, trim_space-show_cidr,
  parse_ipv4_prefix-show_cidr, contains-InBlock, subnet_inside,
}
use infra_orch_studio.Server.Validation.Decode.{
  text_of, decode_spec, IsWrittenGateway, IsWritten, check_groups-filled,
}

-- The block that the wizard has parsed is the one that is written.
same_cidr :
    (text : Text) (c d : Cidr)
    → parse_ipv4_cidr text ≡ some c
    → text ≡ show_cidr d
    → IsCidr d
    → c ≡ d
same_cidr text c d parsed written v =
    let both : some c ≡ some d =
      sym parsed ∙ ap parse_ipv4_cidr written ∙ parse_ipv4_cidr-show_cidr d v in
    ground arith

truthy-append : (s t : Text) → truthy s ≡ true → truthy (s ++ t) ≡ true
truthy-append [] t h = absurd (ground arith)
truthy-append (c ∷ s) t h = refl

truthy-show_cidr : (c : Cidr) → IsCidr c → truthy (show_cidr c) ≡ true
unfolding show_cidr
truthy-show_cidr c v =
    truthy-append (show_address c.address) _ (truthy-show_address c.address v.address_fits)

cidr_not_blank : (c : Cidr) → IsCidr c → truthy (trim_space (show_cidr c)) ≡ true
cidr_not_blank c v = ap truthy (trim_space-show_cidr c v) ∙ truthy-show_cidr c v

-- The gateway that the wizard has found in the subnet is found there by the server.
gateway_inside_block :
    (subnet : Cidr) (a : ℕ)
    → a < 2 ^ 32
    → IsGateway subnet (some (show_address a))
    → InBlock subnet a
unfolding gateway_entered gateway_address
gateway_inside_block subnet a fits g =
    let entered : truthy (trim (show_address a)) ≡ true =
      ap truthy (trim-IsTight (show_address a) (show_address-IsTight a fits))
      ∙ truthy-show_address a fits in
    elim g [
      | inl missing ↦ absurd (true≢false (sym entered ∙ missing))
      | inr (x, found, inside) ↦
          let both : some x ≡ some a =
            sym (rw entered at found) ∙ parse_ipv4_address-show_address a fits in
          let same : x ≡ a = ground arith in subst (InBlock subnet) same inside
    ]

nothing_blank : is_blank (trim_space []) ≡ true
unfolding trim_space trim_left
nothing_blank = refl

gateway_passes :
    (subnet : Cidr) (gateway : Option Text)
    → IsWrittenGateway gateway
    → IsGateway subnet gateway
    → check_gateway (masked (prefix_of subnet)) (trim_space (text_of gateway)) ≡ inr tt
unfolding check_gateway
gateway_passes subnet gateway (inl missing) g = rw missing (rw nothing_blank refl)
gateway_passes subnet gateway (inr (a, fits, written)) g =
    let inside = gateway_inside_block subnet a fits (subst (IsGateway subnet) written g) in
    let filled = ap truthy (trim_space-show_address a fits) ∙ truthy-show_address a fits in
    rw
      (
        written,
        trim_space-show_address a fits,
        trim_space-show_address a fits,
        truthy-show_address a fits,
        parse_addr4-show_address a fits,
        contains-InBlock subnet a inside,
      )
      refl

pub network_passes :
    (show : ℕ → Text) (s : EnvironmentSpec) (ok : IsAcceptable s) (written : IsWritten s)
    → check_network show (normalize_environment_spec (decode_spec s)) ≡ inr tt
unfolding check_network normalize_environment_spec decode_spec
network_passes show s ok written =
    let net = written.network in
    let sub = written.subnet in
    let same_net =
      same_cidr s.network.cidr ok.network net ok.network_parsed written.network_cidr
        written.network_fits in
    let same_sub =
      same_cidr s.subnet.cidr ok.subnet sub ok.subnet_parsed written.subnet_cidr
        written.subnet_fits in
    let inside =
      subst (λ c. (x : ℕ) → x < 2 ^ 32 → InBlock sub x → InBlock c x) same_net
        (subst (λ c. (x : ℕ) → x < 2 ^ 32 → InBlock c x → InBlock ok.network x) same_sub
          ok.inside) in
    let (contained, finer) =
      subnet_inside net sub written.network_fits written.subnet_fits inside in
    let gateway =
      gateway_passes sub s.subnet.gateway_ip written.gateway
        (subst (λ c. IsGateway c s.subnet.gateway_ip) same_sub ok.gateway) in
    let network_text =
      ap trim_space written.network_cidr ∙ trim_space-show_cidr net written.network_fits in
    let subnet_text =
      ap trim_space written.subnet_cidr ∙ trim_space-show_cidr sub written.subnet_fits in
    rw
      (
        network_text,
        cidr_not_blank net written.network_fits,
        parse_ipv4_prefix-show_cidr net "network.cidr" written.network_fits,
        subnet_text,
        cidr_not_blank sub written.subnet_fits,
        parse_ipv4_prefix-show_cidr sub "subnet.cidr" written.subnet_fits,
        contained,
        finer,
        gateway,
      )
      (check_groups-filled show 0 (groups_of s.security_groups) written.groups ok.groups)

pub cidr_filled :
    (text : Text) (c : Cidr) → IsCidr c → text ≡ show_cidr c → truthy (trim_space text) ≡ true
cidr_filled text c v written = ap (λ t. truthy (trim_space t)) written ∙ cidr_not_blank c v
