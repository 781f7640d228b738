-- ===== src/Actions.antt =====
-- The actions of web/src/pages/EnvironmentDetail.tsx and ApprovalControl.tsx: `load`, `runAction`
-- or `run`, and the button that retries the last action. A request is answered by an event, and
-- other events may come while it is under way. A closure that the page keeps is an `Attempt`: it
-- holds the environment that the page showed when it was made.
pub mod Retry
pub mod OneAtATime
use infra_orch_studio.Common.{
  ℕ, Bool, true, false, not, ◌&&◌, Option, none, some, List, [], ◌∷◌, String, Text, units, truthy,
  if◌then◌else◌, is_some,
}
use infra_orch_studio.Api.{User, Environment, AuditEvent, Job}
use infra_orch_studio.Requests.{Request}
use infra_orch_studio.UiCopy.{
  is_revision_conflict_error, summarize_conflict_delta, summarize_operator_error,
}

pub record Attempt : Type 0 where
  pub label : String
  pub execute : Option Environment → Request
  pub environment : Option Environment

-- What the page waits for.
pub data Phase : Type 0 where
  idle : Phase
  executing : Attempt → Phase
  reloading : Phase
  reloading_after_conflict : Attempt → (message : Text) → Phase

pub record Page : Type 0 where
  pub viewer : Option User
  pub environment : Option Environment
  pub audit_items : List AuditEvent
  pub jobs : List Job
  pub error : Option Text
  pub conflict_hint : Option Text
  pub retry_label : Option String
  pub retry : Option Attempt
  pub busy : Option String
  pub confirming : Option Attempt
  pub phase : Phase

-- The outcome of `load()`: the session is refused, the data arrive, or a request fails.
pub data Loaded : Type 0 where
  signed_out : Loaded
  arrived : User → Environment → List AuditEvent → List Job → Loaded
  failed : User → (message : Option Text) → Loaded

-- `err?.message || 'failed'`
unfoldable pub message_or_failed : Option Text → Text
message_or_failed none = units "failed"
message_or_failed (some m) = if truthy m then m else units "failed"

-- The start of `load`, and its outcome.
unfoldable pub begin_load : Page → Page
begin_load page = record page { error = none }

unfoldable pub load : Loaded → Page → Page
load signed_out page = page
load (arrived me environment audit jobs) page = record page {
  viewer = some me;
  environment = some environment;
  audit_items = audit;
  jobs = jobs;
}
load (failed me message) page = record page {
  viewer = some me;
  error = some (message_or_failed message);
}

-- The value that `load()` returns.
unfoldable pub loaded_environment : Loaded → Option Environment
loaded_environment (arrived _ environment _ _) = some environment
loaded_environment signed_out = none
loaded_environment (failed _ _) = none

-- The start of `runAction`: up to the call of `execute`.
unfoldable pub begin : Attempt → Page → Page × Option Request
begin attempt page = (
  record page {
    busy = some attempt.label;
    error = none;
    conflict_hint = none;
    retry_label = none;
    retry = none;
    phase = executing attempt;
  },
  some (attempt.execute attempt.environment),
)

-- The end of the `catch` branch, and `finally`. `runAction`, and the environment in it, is the
-- closure of the first call; `shown` is what becomes of the message on this page.
unfoldable pub keep_retry : Attempt → Text → Page → Page
keep_retry attempt shown page = record page {
  error = some shown;
  retry = some attempt;
  retry_label = some attempt.label;
  busy = none;
  phase = idle;
}

-- `press` runs an action. `ask` opens the dialog for one, whose closure is made then; `confirm` runs
-- the action of the dialog. `dismiss` closes it: a cancellation, or the end of the action that was
-- confirmed. `loaded` brings the outcome of the `load()` behind an action, and `refreshed` that of one
-- from the button Refresh or the first rendering.
pub data Event : Type 0 where
  press : String → (Option Environment → Request) → Event
  ask : String → (Option Environment → Request) → Event
  confirm : Event
  dismiss : Event
  press_retry : Event
  answered : Event
  refused : (message : Option Text) → Event
  loaded : Loaded → Event
  refresh : Event
  refreshed : Loaded → Event

-- `retryRef.current?.()`, and `confirmPendingAction`, which runs what the dialog keeps; the buttons are disabled while an action is busy.
unfoldable pub start_retry : Option Attempt → Page → Page × Option Request
start_retry none page = (page, none)
start_retry (some attempt) page = if is_some page.busy then (page, none) else begin attempt page

abbrev pub attempt_of : String → (Option Environment → Request) → Page → Attempt
attempt_of label execute page = record {
  label = label;
  execute = execute;
  environment = page.environment;
}

unfoldable pub start : String → (Option Environment → Request) → Page → Page × Option Request
start label execute page =
    if is_some page.busy then (page, none) else begin (attempt_of label execute page) page

abbrev pub with_sent : Option Request → List Request → List Request
with_sent none rest = rest
with_sent (some request) rest = request ∷ rest

module _ (show : ℕ → Text) (ko : Bool) (display : Text → Text) where
  -- The start of the `catch` branch.
  unfoldable pub catch_error : Attempt → Text → Page → Page
  catch_error attempt message page =
      if is_revision_conflict_error (some message)
      then record (begin_load page) { phase = reloading_after_conflict attempt message }
      else keep_retry attempt (display message) page

  unfoldable pub on_refused : Option Text → Phase → Page → Page
  on_refused message (executing attempt) page = catch_error attempt (message_or_failed message) page
  on_refused message idle page = page
  on_refused message _ page = page

  unfoldable pub on_answered : Phase → Page → Page
  on_answered (executing attempt) page = record (begin_load page) { phase = reloading }
  on_answered idle page = page
  on_answered _ page = page

  unfoldable pub on_loaded : Loaded → Phase → Page → Page
  on_loaded reply reloading page = record (load reply page) { busy = none; phase = idle }
  on_loaded reply (reloading_after_conflict attempt message) page =
      keep_retry attempt (display message) (record (load reply page) {
        conflict_hint =
            some (summarize_conflict_delta show attempt.environment (loaded_environment reply) ko);
      })
  on_loaded reply idle page = page
  on_loaded reply (executing _) page = page

  unfoldable pub step : Page → Event → Page × Option Request
  step page (press label execute) = start label execute page
  step page (ask label execute) =
      (record page { confirming = some (attempt_of label execute page) }, none)
  step page confirm = start_retry page.confirming page
  step page dismiss = (record page { confirming = none }, none)
  step page press_retry = start_retry page.retry page
  step page answered = (on_answered page.phase page, none)
  step page (refused message) = (on_refused message page.phase page, none)
  step page (loaded reply) = (on_loaded reply page.phase page, none)
  step page refresh = (begin_load (record page { conflict_hint = none }), none)
  step page (refreshed reply) = (load reply page, none)

  -- The requests that a sequence of events sends.
  unfoldable pub run : Page → List Event → Page × List Request
  run page [] = (page, [])
  run page (event ∷ events) =
      let (next, sent) = step page event in
      let (last, rest) = run next events in (last, with_sent sent rest)
