-- ===== src/Create.antt =====
-- web/src/pages/CreateEnvironment.tsx: the events that change the wizard, and the effect that asks
-- for a review preview. A preview keeps the request that it answers, a spec its version, which stands
-- for the identity of the object, and `sent` holds the closures of the effect.
mod State
pub mod Steps
pub mod Review
pub mod Providers
unfoldable pub use State.*
use infra_orch_studio.Common.{
  ℕ, ◌+◌, ◌-◌, Bool, true, false, not, ◌&&◌, ◌||◌, Option, none, some, List, [], ◌∷◌, String, Text,
  units, truthy, given, str_eq, ltb, ◌==◌, if◌then◌else◌, length, any, min, text_eq, is_some,
}
use infra_orch_studio.Js.Text.{trim}
use infra_orch_studio.Js.Object.{nat_key, get}
use infra_orch_studio.Api.{EnvironmentSpec, ReviewSignal}
use infra_orch_studio.SpecForm.{Input, apply_input}
use infra_orch_studio.UiCopy.{text_given}
use infra_orch_studio.Validation.Wizard.{field_errors, step_errors}
use infra_orch_studio.View.{empty_environment_spec}

pub data PreviewResult : Type 0 where
  previewed : List ReviewSignal → PreviewResult
  not_previewed : (message : Option Text) → PreviewResult

unfoldable pub take_preview : PreviewRequest → PreviewResult → Wizard → Wizard
take_preview request (previewed signals) w = record w {
  preview = some (record { answers = request; review_signals = signals });
  preview_loading = false;
}
take_preview request (not_previewed message) w = record w {
  preview = none;
  preview_error = some (message_or "failed to load review preview" message);
  preview_loading = false;
}

-- The closure of the request with this token: each call of the effect has its own, with its spec.
unfoldable pub closure_of : ℕ → List PreviewRequest → Option PreviewRequest
closure_of token [] = none
closure_of token (request ∷ sent) =
    if request.token == token then some request else closure_of token sent

-- `!cancelled`, for the closure of this token.
unfoldable pub is_live : Option PreviewRequest → ℕ → Bool
is_live none token = false
is_live (some request) token = request.token == token

-- An answer counts only for the request that no later effect has cancelled.
unfoldable pub answer_preview : Option PreviewRequest → PreviewResult → Wizard → Wizard
answer_preview none result w = w
answer_preview (some request) result w =
    if is_live w.live request.token
    then take_preview request result (record w { live = none })
    else w

pub data Event : Type 0 where
  signed_in : Event
  templates_listed : List String → Event
  templates_failed : Event
  draft_restored : Stored → Event
  go_to : (index : ℕ) → Event
  back continue : Event
  input : Input → Event
  select_mode : TemplateMode → Event
  select_template : String → Event
  preview_answered : (token : ℕ) → PreviewResult → Event
  create_pressed create_done : Event
  create_failed : (message : Option Text) → Event
  prompt_typed : Text → Event
  generate_pressed : Event
  draft_generated : Draft → Event
  draft_failed : (message : Option Text) → Event
  draft_used : Event
  draft_saved : Event
  draft_not_saved : (message : Option Text) → Event

module _ (show : ℕ → Text) where
  -- The handlers, by event; what the page offers only in some states is guarded as its buttons are.
  unfoldable pub handle : Wizard → Event → Wizard
  handle w signed_in = record w { viewer_ready = true }
  handle w (templates_listed names) = record w {
    template_items = names;
    selected_template = choose_template names w.selected_template;
  }
  handle w templates_failed = record w { template_items = []; selected_template = "basic" }
  handle w (draft_restored stored) = restore stored w
  handle w (go_to index) = if ltb index 7 then record w { step = index } else w
  handle w back = record w { step = w.step - 1 }
  handle w continue =
      if ltb w.step 6 && not (current_step_blocked w)
      then record w { step = min 6 (w.step + 1) }
      else w
  handle w (input i) =
      if ltb 0 w.step && ltb w.step 6 then set_spec (apply_input show w.spec i) w else w
  handle w (select_mode mode) = record w { template_mode = mode }
  handle w (select_template name) = record w { selected_template = name }
  handle w (preview_answered token result) = answer_preview (closure_of token w.sent) result w
  handle w create_pressed =
      if w.step == 6 && can_create w then record w { creating = true; error = none } else w
  handle w create_done = record w { creating = false }
  handle w (create_failed message) = record w {
    creating = false;
    error = some (message_or "failed to create environment" message);
  }
  handle w (prompt_typed text) = record w { chat_prompt = text }
  handle w generate_pressed =
      if not w.draft_busy && truthy (trim w.chat_prompt)
      then record w { draft_busy = true; draft_error = none }
      else w
  handle w (draft_generated draft) = record w { request_draft = some draft; draft_busy = false }
  handle w (draft_failed message) = record w {
    request_draft = none;
    draft_error = some (message_or "failed to generate request draft" message);
    draft_busy = false;
  }
  handle w draft_used = use_draft w.request_draft w
  handle w draft_saved = record w { error = none }
  handle w (draft_not_saved message) = record w {
    error = some (message_or "failed to save local draft" message);
  }

-- The dependencies of the preview effect: `[viewerReady, step, spec, selectedTemplate]`.
unfoldable pub same_dependencies : Wizard → Wizard → Bool
same_dependencies v w =
    (if v.viewer_ready then w.viewer_ready else not w.viewer_ready)
    && v.step == w.step
    && v.spec_version == w.spec_version
    && str_eq v.selected_template w.selected_template

-- What the effect captures; the token is the number of requests before it.
abbrev pub request_now : Wizard → PreviewRequest
request_now w = record { token = length w.sent; spec = w.spec; template_name = w.selected_template }

-- The preview effect: the clean-up cancels the request under way, and at the review step a new one
-- is sent.
unfoldable pub preview_effect : Wizard → Wizard
preview_effect w =
    if w.viewer_ready && w.step == 6
    then record w {
      preview_loading = true;
      preview_error = none;
      live = some (request_now w);
      sent = request_now w ∷ w.sent;
    }
    else record w { live = none }

unfoldable pub settle : Wizard → Wizard → Wizard
settle before after = if same_dependencies before after then after else preview_effect after

-- The request that a pressed button sends: the spec and the template.
unfoldable pub created : Wizard → Event → Option (EnvironmentSpec × String)
created w create_pressed =
    if w.viewer_ready && (w.step == 6 && can_create w)
    then some (w.spec, w.selected_template)
    else none
created w signed_in = none
created w _ = none

module _ (show : ℕ → Text) where
  unfoldable pub step_wizard : Wizard → Event → Wizard
  step_wizard w event = settle w (handle show w event)

  unfoldable pub run_wizard : Wizard → List Event → Wizard
  run_wizard w [] = w
  run_wizard w (event ∷ events) = run_wizard (step_wizard w event) events
