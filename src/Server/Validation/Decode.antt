-- ===== src/Server/Validation/Decode.antt =====
-- The spec that the server decodes from the client's JSON, and what it takes of the client to be
-- written in the way that the server reads.
use infra_orch_studio.Common.{
  ℕ, suc, ◌^◌, ◌<◌, ◌≡◌, refl, ap, ◌∙◌, false, not, Option, none, some, List, [], ◌∷◌, map, Text,
  All, inr, ◌⊎◌,
}
use infra_orch_studio.Js.Number.{of_ℕ, whole}
use infra_orch_studio.Api.{EnvironmentSpec, Instance}
use infra_orch_studio.Validation.Cidr.{Cidr}
use infra_orch_studio.Validation.Cidr.Blocks.{IsCidr}
use infra_orch_studio.Validation.Cidr.RoundTrip.{show_cidr, show_address}
use infra_orch_studio.Validation.Wizard.{groups_of}
use infra_orch_studio.Validation.Wizard.Clear.{IsFilled}
use infra_orch_studio.Server.Go.{trim_space}
use infra_orch_studio.Server.Validation.{GoInstance, GoSpec, is_blank, check_groups}
use infra_orch_studio.Server.Validation.Trim.{
  IsPortable, filled-IsPortable, truthy-trim_space_twice,
}

-- What the server decodes from the JSON of a spec: a missing text is empty, and `counts` are the
-- counts of the instances, which are whole.
abbrev pub text_of : Option Text → Text
text_of none = []
text_of (some t) = t

unfoldable pub decode_instance : Instance → GoInstance
decode_instance i = record {
  name = i.name;
  image = i.image;
  flavor = i.flavor;
  ssh_key_name = text_of i.ssh_key_name;
  count = whole i.count;
}

unfoldable pub decode_spec : EnvironmentSpec → GoSpec
decode_spec s = record {
  environment_name = s.environment_name;
  tenant_name = s.tenant_name;
  network_name = s.network.name;
  network_cidr = s.network.cidr;
  subnet_name = s.subnet.name;
  subnet_cidr = s.subnet.cidr;
  gateway_ip = text_of s.subnet.gateway_ip;
  enable_dhcp = s.subnet.enable_dhcp;
  instances = map decode_instance s.instances;
  security_groups = groups_of s.security_groups;
}

-- The rest of what the server wants: no text has U+0085, and a count is whole.
pub record IsPlainInstance (i : Instance) : Type 0 where
  pub name : IsPortable i.name
  pub image : IsPortable i.image
  pub flavor : IsPortable i.flavor
  pub size : ℕ
  pub sized : i.count ≡ of_ℕ size

-- No gateway, or an address in dotted decimals.
abbrev pub IsWrittenGateway : Option Text → Type 0
IsWrittenGateway gateway =
    (gateway ≡ none) ⊎ ((a : ℕ) × (a < 2 ^ 32) × (gateway ≡ some (show_address a)))

pub record IsWritten (s : EnvironmentSpec) : Type 0 where
  pub environment_name : IsPortable s.environment_name
  pub tenant_name : IsPortable s.tenant_name
  pub network_name : IsPortable s.network.name
  pub subnet_name : IsPortable s.subnet.name
  pub network : Cidr
  pub network_fits : IsCidr network
  pub network_cidr : s.network.cidr ≡ show_cidr network
  pub subnet : Cidr
  pub subnet_fits : IsCidr subnet
  pub subnet_cidr : s.subnet.cidr ≡ show_cidr subnet
  pub gateway : IsWrittenGateway s.subnet.gateway_ip
  pub instances : All IsPlainInstance s.instances
  pub groups : All IsPortable (groups_of s.security_groups)

-- A name of the client, trimmed by the server, is not blank.
pub not_blank : (t : Text) → IsPortable t → IsFilled t → is_blank (trim_space t) ≡ false
not_blank t p h = ap not (truthy-trim_space_twice t ∙ filled-IsPortable t p h)

pub check_groups-filled :
    (show : ℕ → Text) (i : ℕ) (groups : List Text)
    → All IsPortable groups
    → All IsFilled groups
    → check_groups show i (map trim_space groups) ≡ inr tt
unfolding check_groups
check_groups-filled show i [] p f = refl
check_groups-filled show i (g ∷ gs) p f =
    rw (not_blank g p.0 f.0) (check_groups-filled show (suc i) gs p.1 f.1)
