-- ===== src/SpecForm.antt =====
-- web/src/components/EnvironmentSpecForm.tsx: what an input of the form makes of the spec, and which
-- inputs the form offers.
pub mod Groups
pub mod Sizes
use infra_orch_studio.Common.{
  ℕ, zero, suc, ◌+◌, Bool, true, false, not, ◌&&◌, ◌||◌, Option, none, some, List, [], ◌∷◌, ◌++◌,
  map, Text, units, text_eq, truthy, ltb, ◌==◌, if◌then◌else◌, length, any, keep,
}
use infra_orch_studio.Js.Text.{trim, split_when, join}
use infra_orch_studio.Js.Number.{Number, of_ℕ}
use infra_orch_studio.Js.Number.Parse.{to_number}
use infra_orch_studio.Api.{Network, Subnet, Instance, EnvironmentSpec}
use infra_orch_studio.Options.{has, or_empty}

-- The `Partial<Instance>` that an input of an instance passes; `count` is the text of its input.
pub data InstancePatch : Type 0 where
  name image flavor : Text → InstancePatch
  ssh_key_name : Option Text → InstancePatch
  count : Text → InstancePatch

-- `{ ...item, ...patch }`
unfoldable pub patch_instance : InstancePatch → Instance → Instance
patch_instance (name t) item = record item { name = t }
patch_instance (image t) item = record item { image = t }
patch_instance (flavor t) item = record item { flavor = t }
patch_instance (ssh_key_name k) item = record item { ssh_key_name = k }
patch_instance (count t) item = record item { count = to_number t }

unfoldable pub update_instance : List Instance → ℕ → InstancePatch → List Instance
update_instance [] index patch = []
update_instance (item ∷ items) zero patch = patch_instance patch item ∷ items
update_instance (item ∷ items) (suc index) patch = item ∷ update_instance items index patch

-- `items.filter((_, i) => i !== index)`
unfoldable pub remove_at : List Instance → ℕ → List Instance
remove_at [] index = []
remove_at (item ∷ items) zero = items
remove_at (item ∷ items) (suc index) = item ∷ remove_at items index

unfoldable pub join_security_groups : Option (List Text) → Text
join_security_groups items = join (units ", ") (or_empty items)

-- /[\n,]/
abbrev pub at_separator : ℕ → Bool
at_separator c = c == b'\n' || c == b','

unfoldable pub split_security_groups : Text → List Text
split_security_groups raw = keep truthy (map trim (split_when at_separator raw))

unfoldable pub toggle_security_group : Option (List Text) → Text → Bool → List Text
toggle_security_group current group checked =
    let items = keep truthy (or_empty current) in
    if checked
    then if has items group then items else items ++ group ∷ []
    else keep (λ item. not (text_eq item group)) items

-- The instance that the button "Add instance" appends; `show` prints a number.
unfoldable pub new_instance : (ℕ → Text) → ℕ → Instance
new_instance show n = record {
  name = units "worker-" ++ show (n + 1);
  image = units "ubuntu-22.04";
  flavor = units "m1.small";
  ssh_key_name = some [];
  count = of_ℕ 1;
}

pub data Input : Type 0 where
  environment_name tenant_name network_name network_cidr subnet_name subnet_cidr : Text → Input
  gateway_ip : Text → Input
  enable_dhcp : Bool → Input
  instance_input : ℕ → InstancePatch → Input
  remove_instance : ℕ → Input
  add_instance : Input
  toggle_group : Text → Bool → Input
  type_groups : Text → Input

module _ (show : ℕ → Text) where
  unfoldable pub apply_input : EnvironmentSpec → Input → EnvironmentSpec
  apply_input spec (environment_name t) = record spec { environment_name = t }
  apply_input spec (tenant_name t) = record spec { tenant_name = t }
  apply_input spec (network_name t) = record spec { network = record (spec.network) { name = t } }
  apply_input spec (network_cidr t) = record spec { network = record (spec.network) { cidr = t } }
  apply_input spec (subnet_name t) = record spec { subnet = record (spec.subnet) { name = t } }
  apply_input spec (subnet_cidr t) = record spec { subnet = record (spec.subnet) { cidr = t } }
  apply_input spec (gateway_ip t) = record spec {
    subnet = record (spec.subnet) { gateway_ip = some t };
  }
  apply_input spec (enable_dhcp b) = record spec {
    subnet = record (spec.subnet) { enable_dhcp = b };
  }
  apply_input spec (instance_input index patch) = record spec {
    instances = update_instance spec.instances index patch;
  }
  apply_input spec (remove_instance index) = record spec {
    instances = remove_at spec.instances index;
  }
  apply_input spec add_instance = record spec {
    instances = spec.instances ++ new_instance show (length spec.instances) ∷ [];
  }
  apply_input spec (toggle_group group checked) = record spec {
    security_groups = some (toggle_security_group spec.security_groups group checked);
  }
  apply_input spec (type_groups raw) = record spec {
    security_groups = some (split_security_groups raw);
  }

-- The conditions under which the form shows the buttons that change the number of instances.
unfoldable pub is_offered : EnvironmentSpec → Input → Bool
is_offered spec (remove_instance index) =
    ltb 1 (length spec.instances) && ltb index (length spec.instances)
is_offered spec add_instance = ltb (length spec.instances) 2
is_offered spec (environment_name t) = true
is_offered spec _ = true
