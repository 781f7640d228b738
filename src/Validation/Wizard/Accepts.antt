-- ===== src/Validation/Wizard/Accepts.antt =====
-- The specification of an acceptable environment, and its equivalence with the wizard's checks.
use infra_orch_studio.Common.{
  ℕ, suc, ◌*◌, ◌^◌, ◌≤◌, ◌<◌, ◌≡◌, refl, sym, ◌∙◌, ap, ◌↔◌, ◌⊎◌, true, false, not, ◌&&◌, ◌||◌,
  Option, none, some, List, [], ◌∷◌, map, Text, truthy, length, any, is_some, arith, All,
  Option-cases, inl, inr,
}
use infra_orch_studio.Js.Text.{trim, split, split_when, split_from}
use infra_orch_studio.Js.Number.{
  Number, nan, infinite, finite, one, one-pos, of_ℕ, add, is_finite, lt,
}
use infra_orch_studio.Js.Object.{put-ne-nil}
use infra_orch_studio.Api.{EnvironmentSpec, Instance}
use infra_orch_studio.Validation.Cidr.{Cidr, parse_pieces, parse_ipv4_cidr, parse_ipv4_address}
use infra_orch_studio.Validation.Cidr.Blocks.{
  IsCidr, InBlock, cidr_contains_iff, cidr_contains_address_iff,
}
use infra_orch_studio.Validation.Cidr.Parsing.{parse_ipv4_cidr-IsCidr, parse_ipv4_address-lt}
use infra_orch_studio.Validation.Wizard.{
  field_key, Errors, entered_cidr, both_contain, gateway_entered, gateway_address, gateway_inside,
  group_errors, total_from, count_errors, blank_key, instance_errors, instances_errors, groups_of,
  field_errors,
}
use infra_orch_studio.Validation.Wizard.Clear.{
  IsFilled, push-eq-nil_iff, set_if-eq-nil_iff, required_errors-eq-nil_iff, cidr_errors-eq-nil_iff,
  gateway_errors-eq-nil_iff,
}

-- A number from 1 to 2, not necessarily whole.
abbrev pub IsCount : Number → Type 0
IsCount n = (m : ℕ) × (n ≡ finite false m) × (one ≤ m) × (m ≤ 2 * one)

pub record IsInstance (item : Instance) : Type 0 where
  pub named : IsFilled item.name
  pub imaged : IsFilled item.image
  pub flavored : IsFilled item.flavor
  pub counted : IsCount item.count
  pub keyed : blank_key item.ssh_key_name ≡ false

-- No gateway is entered, or it is an address of the subnet's block.
abbrev pub IsGateway : Cidr → Option Text → Type 0
IsGateway subnet gateway =
    (gateway_entered gateway ≡ false)
    ⊎ ((x : ℕ) × (gateway_address gateway ≡ some x) × InBlock subnet x)

-- Numbers that are added from the left, each sum rounded as JavaScript rounds it.
abbrev pub sum_of : Number → List Number → Number
sum_of sum [] = sum
sum_of sum (n ∷ ns) = sum_of (add sum n) ns

pub record IsAcceptable (s : EnvironmentSpec) : Type 0 where
  pub tenant : IsFilled s.tenant_name
  pub environment : IsFilled s.environment_name
  pub network_named : IsFilled s.network.name
  pub subnet_named : IsFilled s.subnet.name
  pub network : Cidr
  pub network_parsed : parse_ipv4_cidr s.network.cidr ≡ some network
  pub subnet : Cidr
  pub subnet_parsed : parse_ipv4_cidr s.subnet.cidr ≡ some subnet
  pub inside : (x : ℕ) → x < 2 ^ 32 → InBlock subnet x → InBlock network x
  pub gateway : IsGateway subnet s.subnet.gateway_ip
  pub at_least_one : 1 ≤ length s.instances
  pub at_most_two : length s.instances ≤ 2
  pub each : All IsInstance s.instances
  pub total : lt (of_ℕ 2) (sum_of (of_ℕ 0) (map (λ (i : Instance). i.count) s.instances)) ≡ false
  pub groups : All IsFilled (groups_of s.security_groups)

-- The two tests of a count.
IsCount-iff :
    (n : Number)
    → ((not (is_finite n) || lt n (of_ℕ 1) ≡ false) × (lt (of_ℕ 2) n ≡ false)) ↔ IsCount n
unfolding is_finite lt of_ℕ
IsCount-iff nan = ground arith
IsCount-iff (infinite s) = ground arith
IsCount-iff (finite true m) = ground (arith, one-pos)
IsCount-iff (finite false m) = (λ h. (m, refl, ground arith, ground arith), λ h. ground arith)

count_errors-eq-nil_iff :
    (i : ℕ) (n : Number) (e : Errors) → (count_errors i n e ≡ []) ↔ (IsCount n × (e ≡ []))
unfolding count_errors
count_errors-eq-nil_iff i n e = grind (arith, IsCount-iff, set_if-eq-nil_iff, put-ne-nil)

-- A count is finite, so the check adds it as it is.
IsCount-is_finite : (n : Number) → IsCount n → is_finite n ≡ true
unfolding is_finite
IsCount-is_finite n (m, e, _, _) = rw e refl

pub total_from-eq-sum_of :
    (acc : Number) (items : List Instance)
    → All IsInstance items
    → total_from acc items ≡ sum_of acc (map (λ (i : Instance). i.count) items)
unfolding total_from
total_from-eq-sum_of acc [] h = refl
total_from-eq-sum_of acc (item ∷ items) (h, hs) =
    rw (IsCount-is_finite item.count h.counted) (total_from-eq-sum_of (add acc item.count) items hs)

-- The total that the check computes of an acceptable environment.
pub total_from-IsAcceptable :
    (s : EnvironmentSpec) → IsAcceptable s → lt (of_ℕ 2) (total_from (of_ℕ 0) s.instances) ≡ false
total_from-IsAcceptable s a =
    ap (lt (of_ℕ 2)) (total_from-eq-sum_of (of_ℕ 0) s.instances a.each) ∙ a.total

instance_errors-eq-nil_iff :
    (i : ℕ) (item : Instance) (e : Errors)
    → (instance_errors i item e ≡ []) ↔ (IsInstance item × (e ≡ []))
unfolding instance_errors
instance_errors-eq-nil_iff i item e =
    grind (arith, push-eq-nil_iff, set_if-eq-nil_iff, count_errors-eq-nil_iff)

instances_errors-eq-nil_iff :
    (i : ℕ) (items : List Instance) (e : Errors)
    → (instances_errors i items e ≡ []) ↔ (All IsInstance items × (e ≡ []))
unfolding instances_errors
instances_errors-eq-nil_iff i [] e = ground arith
instances_errors-eq-nil_iff i (item ∷ items) e = ground (
  arith,
  instances_errors-eq-nil_iff (suc i) items (instance_errors i item e),
  instance_errors-eq-nil_iff i item e,
)

group_errors-eq-nil_iff :
    (items : List Instance) (e : Errors)
    → (group_errors items e ≡ []) ↔ ((1 ≤ length items) × (length items ≤ 2) × (e ≡ []))
unfolding group_errors
group_errors-eq-nil_iff items e = grind (arith, set_if-eq-nil_iff)

any-blank_iff :
    (groups : List Text)
    → (any (λ item. not (truthy (trim item))) groups ≡ false) ↔ All IsFilled groups
any-blank_iff [] = ground arith
any-blank_iff (g ∷ gs) = ground (arith, any-blank_iff gs)

-- A blank text is no block.
parse_pieces-IsFilled :
    (t : Text) {c : Cidr} → parse_pieces (split b'/' t) ≡ some c → truthy t ≡ true
unfolding parse_pieces split split_when split_from
parse_pieces-IsFilled [] h = cc
parse_pieces-IsFilled (d ∷ t) h = refl

parse_ipv4_cidr-IsFilled : (v : Text) {c : Cidr} → parse_ipv4_cidr v ≡ some c → IsFilled v
unfolding parse_ipv4_cidr
parse_ipv4_cidr-IsFilled v h = parse_pieces-IsFilled (trim v) h

entered_of_parsed : (v : Text) {c : Cidr} → parse_ipv4_cidr v ≡ some c → entered_cidr v ≡ some c
unfolding entered_cidr
entered_of_parsed v {c} h = ground (arith, parse_ipv4_cidr-IsFilled v {c = c} h)

parsed_of_entered :
    (v : Text)
    → IsFilled v
    → (truthy (trim v) && not (is_some (entered_cidr v)) ≡ false)
    → (c : Cidr) × (parse_ipv4_cidr v ≡ some c)
unfolding entered_cidr
parsed_of_entered v f h = ground arith

IsGateway-iff :
    (subnet : Cidr) (gateway : Option Text)
    → IsCidr subnet
    → ((gateway_entered gateway && not (is_some (gateway_address gateway)) ≡ false)
        × (gateway_inside (some subnet) (gateway_address gateway) ≡ true))
      ↔ IsGateway subnet gateway
unfolding gateway_entered gateway_address gateway_inside
IsGateway-iff subnet none v = ground arith
IsGateway-iff subnet (some g) v = elim (Option-cases (parse_ipv4_address g)) [
  | inl unread ↦ ground (arith, unread)
  | inr (x, found) ↦
      ground (arith, found, cidr_contains_address_iff subnet x v (parse_ipv4_address-lt g found))
]

-- The outcomes of the tests, one field for each group of checks.
record IsClear (s : EnvironmentSpec) : Type 0 where
  tenant : IsFilled s.tenant_name
  environment : IsFilled s.environment_name
  network_named : IsFilled s.network.name
  network_filled : IsFilled s.network.cidr
  subnet_named : IsFilled s.subnet.name
  subnet_filled : IsFilled s.subnet.cidr
  network_read : truthy (trim s.network.cidr) && not (is_some (entered_cidr s.network.cidr)) ≡ false
  subnet_read : truthy (trim s.subnet.cidr) && not (is_some (entered_cidr s.subnet.cidr)) ≡ false
  contained : both_contain (entered_cidr s.network.cidr) (entered_cidr s.subnet.cidr) ≡ true
  gateway_read :
      gateway_entered s.subnet.gateway_ip && not (is_some (gateway_address s.subnet.gateway_ip))
      ≡ false
  gateway_in :
      gateway_inside (entered_cidr s.subnet.cidr) (gateway_address s.subnet.gateway_ip) ≡ true
  at_least_one : 1 ≤ length s.instances
  at_most_two : length s.instances ≤ 2
  each : All IsInstance s.instances
  total : lt (of_ℕ 2) (total_from (of_ℕ 0) s.instances) ≡ false
  groups : All IsFilled (groups_of s.security_groups)

IsClear-iff : (s : EnvironmentSpec) → (field_errors s ≡ []) ↔ IsClear s
unfolding field_errors
IsClear-iff s = grind (
  arith, required_errors-eq-nil_iff, cidr_errors-eq-nil_iff, gateway_errors-eq-nil_iff,
  group_errors-eq-nil_iff, instances_errors-eq-nil_iff, set_if-eq-nil_iff, any-blank_iff,
)

IsAcceptable-of_clear : (s : EnvironmentSpec) → IsClear s → IsAcceptable s
unfolding both_contain
IsAcceptable-of_clear s h =
    let (network, network_parsed) =
      parsed_of_entered s.network.cidr h.network_filled h.network_read in
    let (subnet, subnet_parsed) = parsed_of_entered s.subnet.cidr h.subnet_filled h.subnet_read in
    let network_ok = parse_ipv4_cidr-IsCidr s.network.cidr network_parsed in
    let subnet_ok = parse_ipv4_cidr-IsCidr s.subnet.cidr subnet_parsed in
    let network_entered = entered_of_parsed s.network.cidr network_parsed in
    let subnet_entered = entered_of_parsed s.subnet.cidr subnet_parsed in
    record {
      tenant = h.tenant;
      environment = h.environment;
      network_named = h.network_named;
      subnet_named = h.subnet_named;
      network = network;
      network_parsed = network_parsed;
      subnet = subnet;
      subnet_parsed = subnet_parsed;
      inside =
          (cidr_contains_iff network subnet network_ok subnet_ok).0
            (rw (network_entered, subnet_entered) at h.contained);
      gateway =
          (IsGateway-iff subnet s.subnet.gateway_ip subnet_ok).0
            (h.gateway_read, (rw subnet_entered at h.gateway_in));
      at_least_one = h.at_least_one;
      at_most_two = h.at_most_two;
      each = h.each;
      total = ap (lt (of_ℕ 2)) (sym (total_from-eq-sum_of (of_ℕ 0) s.instances h.each)) ∙ h.total;
      groups = h.groups;
    }

IsClear-of_IsAcceptable : (s : EnvironmentSpec) → IsAcceptable s → IsClear s
unfolding both_contain
IsClear-of_IsAcceptable s a =
    let network_ok = parse_ipv4_cidr-IsCidr s.network.cidr a.network_parsed in
    let subnet_ok = parse_ipv4_cidr-IsCidr s.subnet.cidr a.subnet_parsed in
    let network_entered = entered_of_parsed s.network.cidr a.network_parsed in
    let subnet_entered = entered_of_parsed s.subnet.cidr a.subnet_parsed in
    let network_filled = parse_ipv4_cidr-IsFilled s.network.cidr a.network_parsed in
    let subnet_filled = parse_ipv4_cidr-IsFilled s.subnet.cidr a.subnet_parsed in
    let gateway = (IsGateway-iff a.subnet s.subnet.gateway_ip subnet_ok).1 a.gateway in
    let contained = (cidr_contains_iff a.network a.subnet network_ok subnet_ok).1 a.inside in
    record {
      tenant = a.tenant;
      environment = a.environment;
      network_named = a.network_named;
      network_filled = network_filled;
      subnet_named = a.subnet_named;
      subnet_filled = subnet_filled;
      network_read = rw (network_filled, network_entered) refl;
      subnet_read = rw (subnet_filled, subnet_entered) refl;
      contained = rw (network_entered, subnet_entered) contained;
      gateway_read = gateway.0;
      gateway_in = rw subnet_entered gateway.1;
      at_least_one = a.at_least_one;
      at_most_two = a.at_most_two;
      each = a.each;
      total = total_from-IsAcceptable s a;
      groups = a.groups;
    }

-- The wizard's checks report no error exactly for an acceptable environment: every name is filled,
-- both blocks parse and every address of the subnet's lies in the network's, a gateway lies in the
-- subnet, there are one or two instances with a name, an image, a flavor, a count from 1 to 2 and no
-- blank SSH key, the rounded sum of the counts is at most 2, and no security group is blank.
pub field_errors-eq-nil_iff : (s : EnvironmentSpec) → (field_errors s ≡ []) ↔ IsAcceptable s
field_errors-eq-nil_iff s = (
  λ h. IsAcceptable-of_clear s ((IsClear-iff s).0 h),
  λ a. (IsClear-iff s).1 (IsClear-of_IsAcceptable s a),
)
