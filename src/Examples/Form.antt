-- ===== src/Examples/Form.antt =====
-- web/src/components/EnvironmentSpecForm.tsx and web/src/utils on concrete inputs.
use infra_orch_studio.Common.{
  ℕ, ◌≡◌, refl, true, false, ◌&&◌, some, List, [], ◌∷◌, ◌++◌, map, Text, units, All, text_eq,
  truthy, arith, if◌then◌else◌,
}
use infra_orch_studio.Js.Text.{trim}
use infra_orch_studio.Examples.{evaluation}
use infra_orch_studio.Options.{has, or_empty, unique}
use infra_orch_studio.Options.Laws.{has-unique}
use infra_orch_studio.SpecForm.{join_security_groups, split_security_groups, toggle_security_group}
use infra_orch_studio.SpecForm.Groups.{
  IsGroup, has-toggle_security_group, split-join_security_groups, typed_separator_lost,
}

abbrev show : ℕ → Text
show n = units "n"

abbrev groups : List Text
groups = units "sg-web" ∷ units "sg-data" ∷ []

groups-IsGroup : All IsGroup groups
unfolding evaluation
groups-IsGroup = ground arith

group_tests :
    (join_security_groups (some groups) ≡ units "sg-web, sg-data")
    × (split_security_groups (units " sg-web,\n,sg-data ") ≡ groups)
    × (toggle_security_group (some groups) (units "sg-web") false ≡ units "sg-data" ∷ [])
    × (unique (units " a" ∷ units "b" ∷ units "a" ∷ [] ∷ []) ≡ units "a" ∷ units "b" ∷ [])
unfolding evaluation
group_tests = (refl, refl, refl, refl)

toggle_example : has (toggle_security_group (some groups) (units "sg-db") true) (units "sg-web") ≡ (
    if text_eq (units "sg-web") (units "sg-db")
    then true
    else truthy (units "sg-web") && has (or_empty (some groups)) (units "sg-web"))
toggle_example = has-toggle_security_group (some groups) (units "sg-db") true (units "sg-web")

split-join_example : split_security_groups (join_security_groups (some groups)) ≡ groups
unfolding evaluation
split-join_example = split-join_security_groups groups groups-IsGroup

typed_separator_example :
    join_security_groups
      (some (split_security_groups (join_security_groups (some groups) ++ b',' ∷ [])))
    ≡ join_security_groups (some groups)
unfolding evaluation
typed_separator_example = typed_separator_lost groups b',' refl groups-IsGroup

has-unique_example :
    has (unique (units " a" ∷ units "b" ∷ [])) (units "a")
    ≡ (truthy (units "a") && has (map trim (units " a" ∷ units "b" ∷ [])) (units "a"))
has-unique_example = has-unique (units " a" ∷ units "b" ∷ []) (units "a")
