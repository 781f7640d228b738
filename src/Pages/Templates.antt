-- ===== src/Pages/Templates.antt =====
-- web/src/pages/Templates.tsx: the catalog of templates, and the one that is selected. Answers
-- about a template come later, and carry the selection that asked for them.
use infra_orch_studio.Common.{
  Bool, true, false, not, ◌&&◌, Option, none, some, List, [], ◌∷◌, String, Text, str_eq,
  if◌then◌else◌, is_some,
}
use infra_orch_studio.Pages.Fetch.{Answer, answered, refused, message_or}

pub data Kind : Type 0 where
  environment_kind module_kind : Kind

pub record Selection : Type 0 where
  pub kind : Kind
  pub name : String

-- Of a validation and of a detail: the template that they are about, and whether it is valid.
pub record Validation : Type 0 where
  pub of : Selection
  pub valid : Bool

-- The answer about a template, with its validation.
pub record Detail : Type 0 where
  pub of : Selection
  pub validation : Validation

pub data Busy : Type 0 where
  inspect validate : Busy

pub record Page : Type 0 where
  pub catalog : Option (List String × List String)
  pub selected : Option Selection
  pub detail : Option Detail
  pub validation : Option Validation
  pub error : Option Text
  pub busy : Option Busy

unfoldable pub initial : Page
initial = record {
  catalog = none;
  selected = none;
  detail = none;
  validation = none;
  error = none;
  busy = none;
}

abbrev same_kind : Kind → Kind → Bool
same_kind environment_kind environment_kind = true
same_kind module_kind module_kind = true
same_kind environment_kind module_kind = false
same_kind module_kind environment_kind = false

abbrev is_selected : Option Selection → Selection → Bool
is_selected none s = false
is_selected (some t) s = same_kind t.kind s.kind && str_eq t.name s.name

-- `setSelected`, and the effect, which runs when the kind or the name is another one.
unfoldable pub select : Selection → Page → Page
select s page =
    if is_selected page.selected s
    then page
    else record page { selected = some s; busy = some inspect; error = none }

abbrev first_template : Option Selection → List String → Page → Page
first_template (some s) names page = page
first_template none [] page = page
first_template none (name ∷ _) page = record page {
  selected = some (record { kind = environment_kind; name = name });
  busy = some inspect;
  error = none;
}

unfoldable pub listed : Answer (List String × List String) → Page → Page
listed (refused message) page = record page {
  error = some (message_or "failed to load templates" message);
}
listed (answered (sets, modules)) page =
    first_template page.selected sets (record page { catalog = some (sets, modules) })

pub data Event : Type 0 where
  load : Event
  list : Answer (List String × List String) → Event
  pick : Selection → Event
  inspected : Selection → Answer Detail → Event
  press_validate : Event
  validated : Selection → Answer Validation → Event

unfoldable pub step : Page → Event → Page
unfolding listed select
step page load = record page { error = none }
step page (list answer) = listed answer page
step page (pick s) = select s page
step page (inspected _ (answered d)) = record page {
  detail = some d;
  validation = some d.validation;
  busy = none;
}
step page (inspected _ (refused message)) = record page {
  detail = none;
  validation = none;
  error = some (message_or "failed to inspect template" message);
  busy = none;
}
step page press_validate =
    if is_some page.selected && not (is_some page.busy)
    then record page { busy = some validate; error = none }
    else page
step page (validated _ (answered v)) = record page { validation = some v; busy = none }
step page (validated _ (refused message)) = record page {
  error = some (message_or "failed to validate template" message);
  busy = none;
}

unfoldable pub run : Page → List Event → Page
unfolding step
run page [] = page
run page (event ∷ events) = run (step page event) events
