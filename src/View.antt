-- ===== src/View.antt =====
-- web/src/utils/environmentView.ts: the summaries that the pages show of an environment. What
-- JavaScript prints for a number is the parameter `show`.
mod Checkpoints
unfoldable pub use Checkpoints.*
use infra_orch_studio.Common.{
  ℕ, Bool, true, false, ◌&&◌, ◌||◌, Option, none, some, List, [], ◌∷◌, ◌++◌, String, Text, units,
  truthy, given, str_eq, if◌then◌else◌, length, ◌==◌,
}
use infra_orch_studio.Js.Text.{ends_with, join}
use infra_orch_studio.Js.Number.{Number, nan, finite, infinite, of_ℕ, ge, add}
use infra_orch_studio.Api.{
  Instance, EnvironmentSpec, Job, Environment, AuditEvent, high, medium, low, ReviewSignal,
}
use infra_orch_studio.Validation.Wizard.{groups_of}

unfoldable pub empty_environment_spec : EnvironmentSpec
empty_environment_spec = record {
  environment_name = units "edge-payments-staging";
  tenant_name = units "tenant-prod-us-03";
  network = record { name = units "vnet-core-a"; cidr = units "10.24.0.0/24" };
  subnet = record {
    name = units "snet-app-03";
    cidr = units "10.24.0.0/25";
    gateway_ip = some (units "10.24.0.1");
    enable_dhcp = true;
  };
  instances =
      record {
        name = units "app-01";
        image = units "ubuntu-22.04";
        flavor = units "m1.medium";
        ssh_key_name = some (units "default");
        count = of_ℕ 2;
      }
      ∷ [];
  security_groups = some (units "sg-web" ∷ units "sg-data" ∷ []);
}

-- `item.count || 0`
unfoldable pub or_zero : Number → Number
or_zero nan = of_ℕ 0
or_zero (infinite s) = infinite s
or_zero (finite s m) = if m == 0 then of_ℕ 0 else finite s m

unfoldable pub instance_total_from : Number → List Instance → Number
instance_total_from acc [] = acc
instance_total_from acc (item ∷ items) = instance_total_from (add acc (or_zero item.count)) items

pub record Summary : Type 0 where
  pub instance_total : Number
  pub security_group_total : ℕ
  pub subnet_capacity_warning : Bool

unfoldable pub summarize_spec : EnvironmentSpec → Summary
summarize_spec spec = record {
  instance_total = instance_total_from (of_ℕ 0) spec.instances;
  security_group_total = length (groups_of spec.security_groups);
  subnet_capacity_warning =
      ends_with (units "/26") spec.subnet.cidr
      || ends_with (units "/27") spec.subnet.cidr
      || ends_with (units "/28") spec.subnet.cidr;
}

-- `n >= 2`
abbrev pub at_least_two : Number → Bool
at_least_two n = ge n (of_ℕ 2)

-- `if (test) items.push(signal)`
abbrev pub push_if : Bool → ReviewSignal → List ReviewSignal → List ReviewSignal
push_if test signal items = if test then items ++ signal ∷ [] else items

module _ (show : Number → Text) where
  unfoldable pub security_signal : List Text → ReviewSignal
  security_signal [] = record {
    label = "Security references missing";
    detail =
        units "No security groups are attached. Validate tenant baseline inheritance before apply.";
    severity = high;
  }
  security_signal (g ∷ groups) = record {
    label = "Security references inherited";
    detail =
        join (units ", ") (g ∷ groups)
        ++ units " will be included in the resulting environment state.";
    severity = low;
  }

  unfoldable pub build_review_signals : EnvironmentSpec → String → List ReviewSignal
  build_review_signals spec operation =
      let summary = summarize_spec spec in
      let items =
        push_if (str_eq operation "destroy")
          (record {
            label = "Destroy operation";
            detail =
                units
                  "This plan is destructive and will require an explicit confirmation before it should be approved.";
            severity = high;
          })
          [] in
      let items =
        push_if (at_least_two summary.instance_total)
          (record {
            label = "Large instance footprint";
            detail =
                show summary.instance_total
                ++ units " instances are requested, which increases rollout time and blast radius.";
            severity = medium;
          })
          items in
      let items =
        push_if summary.subnet_capacity_warning
          (record {
            label = "Subnet capacity pressure";
            detail =
                units "Subnet "
                ++ (spec.subnet.cidr
                    ++ units " suggests limited remaining address space for future changes.");
            severity = high;
          })
          items in
      let items = items ++ security_signal (groups_of spec.security_groups) ∷ [] in
      items
      ++ record {
        label = "Template-backed plan";
        detail =
            units "Network "
            ++ (spec.network.name
                ++ (units " and subnet "
                    ++ (spec.subnet.name
                        ++ units " will be rendered through the fixed template path.")));
        severity = low;
      }
        ∷ []

  pub record Impact : Type 0 where
    pub downtime : Text
    pub blast_radius : Text
    pub cost_delta : Text

  -- `text || '-'`
  abbrev or_dash : Text → Text
  or_dash t = if truthy t then t else units "-"

  unfoldable pub downtime_of : String → Number → Bool → Text
  downtime_of operation total ko =
      if str_eq operation "destroy"
      then if ko then units "높음" else units "High"
      else if at_least_two total
      then if ko then units "중간" else units "Medium"
      else if ko
      then units "낮음"
      else units "Low"

  unfoldable pub cost_delta_of : String → Summary → Bool → Text
  cost_delta_of operation summary ko =
      let total = show summary.instance_total in
      let groups = show (of_ℕ summary.security_group_total) in
      if str_eq operation "destroy"
      then if ko
        then units "destroy 적용 후 비용이 감소할 것으로 예상됩니다."
        else units "Negative spend delta expected after destroy is applied."
      else if ko
      then units "예상 자원 영향은 인스턴스 " ++ (total ++ (units "개와 보안 참조 " ++ (groups ++ units "개입니다.")))
      else units "Estimated footprint includes "
        ++ (total ++ (units " instances and " ++ (groups ++ units " security references.")))

  unfoldable pub build_impact_summary : EnvironmentSpec → String → Bool → Impact
  build_impact_summary spec operation ko =
      let summary = summarize_spec spec in
      record {
        downtime = downtime_of operation summary.instance_total ko;
        blast_radius =
            or_dash spec.tenant_name
            ++ (units " / "
                ++ (or_dash spec.network.name ++ (units " / " ++ or_dash spec.subnet.name)));
        cost_delta = cost_delta_of operation summary ko;
      }
