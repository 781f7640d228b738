-- ===== src/Create/State.antt =====
-- The state of the wizard of web/src/pages/CreateEnvironment.tsx, and what of it can change at
-- once: a stored draft, a generated draft, the choice of a template.
use infra_orch_studio.Common.{
  ℕ, ◌+◌, Bool, false, not, ◌&&◌, Option, none, some, List, [], ◌∷◌, String, Text, units, truthy,
  given, str_eq, ltb, ◌==◌, if◌then◌else◌, length, any, min,
}
use infra_orch_studio.Js.Object.{nat_key, get}
use infra_orch_studio.Api.{EnvironmentSpec, ReviewSignal}
use infra_orch_studio.UiCopy.{text_given}
use infra_orch_studio.Validation.Wizard.{field_errors, step_errors}
use infra_orch_studio.View.{empty_environment_spec}

pub data TemplateMode : Type 0 where
  template custom : TemplateMode

pub record PreviewRequest : Type 0 where
  pub token : ℕ
  pub spec : EnvironmentSpec
  pub template_name : String

pub record Preview : Type 0 where
  pub answers : PreviewRequest
  pub review_signals : List ReviewSignal

pub record Draft : Type 0 where
  pub template_name : String
  pub spec : EnvironmentSpec

pub record Wizard : Type 0 where
  pub viewer_ready : Bool
  pub step : ℕ
  pub spec : EnvironmentSpec
  pub spec_version : ℕ
  pub template_mode : TemplateMode
  pub template_items : List String
  pub selected_template : String
  pub error : Option Text
  pub creating : Bool
  pub preview : Option Preview
  pub preview_error : Option Text
  pub preview_loading : Bool
  pub live : Option PreviewRequest
  pub sent : List PreviewRequest
  pub chat_prompt : Text
  pub draft_busy : Bool
  pub draft_error : Option Text
  pub request_draft : Option Draft

unfoldable pub initial : Wizard
initial = record {
  viewer_ready = false;
  step = 0;
  spec = empty_environment_spec;
  spec_version = 0;
  template_mode = template;
  template_items = [];
  selected_template = "basic";
  error = none;
  creating = false;
  preview = none;
  preview_error = none;
  preview_loading = false;
  live = none;
  sent = [];
  chat_prompt = [];
  draft_busy = false;
  draft_error = none;
  request_draft = none;
}

-- `err?.message || fallback`
abbrev pub message_or : String → Option Text → Text
message_or fallback none = units fallback
message_or fallback (some m) = if truthy m then m else units fallback

-- `setSpec(next)`
abbrev pub set_spec : EnvironmentSpec → Wizard → Wizard
set_spec spec w = record w { spec = spec; spec_version = w.spec_version + 1 }

-- What `localStorage` holds of an earlier draft; a missing field is `none`.
pub record Stored : Type 0 where
  pub spec : Option EnvironmentSpec
  pub template_mode : Option TemplateMode
  pub selected_template : Option String
  pub step : Option ℕ

abbrev restore_spec : Option EnvironmentSpec → Wizard → Wizard
restore_spec none w = w
restore_spec (some spec) w = set_spec spec w

abbrev restore_mode : Option TemplateMode → Wizard → Wizard
restore_mode none w = w
restore_mode (some mode) w = record w { template_mode = mode }

abbrev restore_template : Option String → Wizard → Wizard
restore_template none w = w
restore_template (some name) w = if given name then record w { selected_template = name } else w

abbrev restore_step : Option ℕ → Wizard → Wizard
restore_step none w = w
restore_step (some step) w = record w { step = min 6 step }

unfoldable pub restore : Stored → Wizard → Wizard
restore stored w = restore_step stored.step (
    restore_template stored.selected_template
      (restore_mode stored.template_mode (restore_spec stored.spec w)))

-- The catalog of templates: a name that it lacks is replaced by its first.
unfoldable pub choose_template : List String → String → String
choose_template [] chosen = chosen
choose_template (name ∷ names) chosen =
    if any (λ item. str_eq item chosen) (name ∷ names) then chosen else name

unfoldable pub current_step_errors : Wizard → List String
current_step_errors w = elim (get w.step (step_errors (field_errors w.spec))) [
  | none ↦ []
  | some errors ↦ errors
]

unfoldable pub current_step_blocked : Wizard → Bool
current_step_blocked w = not (w.step == 0) && ltb 0 (length (current_step_errors w))

-- The condition under which the last button is enabled.
unfoldable pub can_create : Wizard → Bool
can_create w =
    not w.creating
    && not w.preview_loading
    && not (text_given w.preview_error)
    && length (field_errors w.spec) == 0

unfoldable pub use_draft : Option Draft → Wizard → Wizard
use_draft none w = w
use_draft (some draft) w = record (set_spec draft.spec w) {
  selected_template = if given draft.template_name then draft.template_name else "basic";
  template_mode = template;
  step = 1;
}
