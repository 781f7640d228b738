-- ===== src/Server/Review.antt =====
-- internal/api/plan_review.go: the signals and the summary that the server computes for the review of
-- a plan. A count that is shown is printed by the parameter `show`.
pub mod Agree
use infra_orch_studio.Common.{
  ℕ, ◌+◌, ◌%◌, ◌^◌, Bool, true, false, ◌&&◌, ◌||◌, Option, none, some, List, [], ◌∷◌, ◌++◌, String,
  Text, units, truthy, leb, ltb, str_eq, length, if◌then◌else◌,
}
use infra_orch_studio.Js.Text.{ends_with, join}
use infra_orch_studio.Api.{ReviewSignal, high, medium, low}
use infra_orch_studio.Server.Validation.{GoInstance, GoSpec}

-- The sum of the counts as an `int`.
unfoldable pub total_from : ℕ → List GoInstance → ℕ
total_from total [] = total
total_from total (item ∷ items) = total_from ((total + item.count) % 2 ^ 64) items

unfoldable pub instance_total : GoSpec → ℕ
instance_total spec = total_from 0 spec.instances

unfoldable pub capacity_warning : GoSpec → Bool
capacity_warning spec =
    ends_with (units "/26") spec.subnet_cidr
    || ends_with (units "/27") spec.subnet_cidr
    || ends_with (units "/28") spec.subnet_cidr

-- `instanceTotal >= 2` for an `int`.
abbrev pub two_or_more : ℕ → Bool
two_or_more n = leb 2 n && ltb n (2 ^ 63)

abbrev pub append_if : Bool → ReviewSignal → List ReviewSignal → List ReviewSignal
append_if test signal items = if test then items ++ signal ∷ [] else items

abbrev pub groups_signal : List Text → ReviewSignal
groups_signal [] = record {
  label = "Security references missing";
  detail =
      units "No security groups are attached. Validate tenant baseline inheritance before apply.";
  severity = high;
}
groups_signal (g ∷ groups) = record {
  label = "Security references inherited";
  detail =
      join (units ", ") (g ∷ groups)
      ++ units " will be included in the resulting environment state.";
  severity = low;
}

-- The template of the plan job, or `basic`.
abbrev template_or_basic : Option Text → Text
template_or_basic none = units "basic"
template_or_basic (some name) = if truthy name then name else units "basic"

unfoldable pub review_signals : (ℕ → Text) → GoSpec → String → Option Text → List ReviewSignal
review_signals show spec operation template =
    let items =
      append_if (str_eq operation "destroy")
        (record {
          label = "Destroy operation";
          detail =
              units
                "This plan is destructive and will require an explicit confirmation before it should be approved.";
          severity = high;
        })
        [] in
    let items =
      append_if (two_or_more (instance_total spec))
        (record {
          label = "Large instance footprint";
          detail =
              show (instance_total spec)
              ++ units " instances are requested, which increases rollout time and blast radius.";
          severity = medium;
        })
        items in
    let items =
      append_if (capacity_warning spec)
        (record {
          label = "Subnet capacity pressure";
          detail =
              units "Subnet "
              ++ (spec.subnet_cidr
                  ++ units " suggests limited remaining address space for future changes.");
          severity = high;
        })
        items in
    let items = items ++ groups_signal spec.security_groups ∷ [] in
    items
    ++ record {
      label = "Template-backed plan";
      detail =
          units "Network "
          ++ (spec.network_name
              ++ (units " and subnet "
                  ++ (spec.subnet_name
                      ++ (units " will be rendered through template "
                          ++ (template_or_basic template ++ units ".")))));
      severity = low;
    }
      ∷ []

pub record GoImpact : Type 0 where
  pub downtime : Text
  pub blast_radius : Text
  pub cost_delta : Text

-- `orDash`
abbrev pub dash_or : Text → Text
dash_or value = if truthy value then value else units "-"

unfoldable pub impact_of : (ℕ → Text) → GoSpec → String → GoImpact
impact_of show spec operation = record {
  downtime =
      if str_eq operation "destroy"
      then units "High"
      else if two_or_more (instance_total spec)
      then units "Medium"
      else units "Low";
  blast_radius =
      dash_or spec.tenant_name
      ++ (units " / " ++ (dash_or spec.network_name ++ (units " / " ++ dash_or spec.subnet_name)));
  cost_delta =
      if str_eq operation "destroy"
      then units "Negative spend delta expected after destroy is applied."
      else units "Estimated footprint includes "
        ++ (show (instance_total spec)
            ++ (units " instances and "
                ++ (show (length spec.security_groups) ++ units " security references.")));
}
