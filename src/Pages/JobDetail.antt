-- ===== src/Pages/JobDetail.antt =====
-- web/src/pages/JobDetail.tsx: a job, its log, and the messages of the server's socket about it.
-- The page stays mounted when its address changes to another job, so an answer carries the job id
-- of the closure that asked for it.
pub mod Live
pub mod Controls
use infra_orch_studio.Common.{
  ℕ, Bool, true, false, not, ◌&&◌, ◌||◌, Option, none, some, List, [], ◌∷◌, ◌++◌, map, String, Text,
  units, given, str_eq, if◌then◌else◌,
}
use infra_orch_studio.Api.{User, Job}
use infra_orch_studio.Detail.{is_admin}
use infra_orch_studio.Pages.Fetch.{Answer, answered, refused, message_or}

-- `WsEvent`
pub data WsEvent : Type 0 where
  log : (job_id : String) → (file : Option String) → (message : Text) → WsEvent
  status : (job_id status : String) → (error : Option String) → WsEvent
  error : (message : Text) → WsEvent

pub record LogEntry : Type 0 where
  pub id : Text
  pub file : Option String
  pub message : Text

-- An item of the answer of `jobs.logs`; its offset is shown as `offset`.
pub record LogItem : Type 0 where
  pub file : String
  pub offset : Text
  pub message : Text
  pub truncated : Bool

abbrev pub opt_given : Option String → Bool
opt_given none = false
opt_given (some s) = given s

abbrev pub path_under : String → String → Text
path_under id rest = units "/environments/" ++ (units id ++ units rest)

abbrev review_or_not : Job → String → Text
review_or_not job id =
    if str_eq job.status "done" && str_eq job.job_type "tofu.plan"
    then path_under id "/review"
    else path_under id ""

abbrev route_with : Option String → (String → Text) → Option Text
route_with none f = none
route_with (some id) f = if given id then some (f id) else none

unfoldable pub environment_route : Option Job → Option Text
environment_route none = none
environment_route (some job) = route_with job.environment_id (review_or_not job)

unfoldable pub approval_route : Option Job → Option Text
approval_route none = none
approval_route (some job) = route_with job.environment_id (λ id. path_under id "/approval")

pub record Page : Type 0 where
  pub job_id : String
  pub job : Option Job
  pub status : String
  pub viewer : Option User
  pub logs : List LogEntry
  pub error : Option Text
  pub connected : Bool
  pub applying : Bool

unfoldable pub initial : String → Page
initial id = record {
  job_id = id;
  job = none;
  status = "";
  viewer = none;
  logs = [];
  error = none;
  connected = false;
  applying = false;
}

unfoldable pub snapshot_entry : LogItem → LogEntry
snapshot_entry item = record {
  id = units "snapshot-" ++ (units item.file ++ (units "-" ++ item.offset));
  file = some item.file;
  message =
      if item.truncated
      then units "... log truncated to latest content ...\n" ++ item.message
      else item.message;
}

-- `if (logSnapshot) setLogs(…)`
unfoldable pub with_snapshot : Option (List LogItem) → Page → Page
with_snapshot none page = page
with_snapshot (some items) page = record page { logs = map snapshot_entry items }

-- `loadJob` after the answers about the job and its log.
unfoldable pub loaded : Answer (Job × Option (List LogItem)) → Page → Page
loaded (refused message) page = record page { error = some (message_or "failed" message) }
loaded (answered (next, snapshot)) page =
    with_snapshot snapshot (record page { job = some next; status = next.status })

abbrev error_or : Option String → Option String → Option String
error_or none before = before
error_or (some e) before = some e

abbrev pub with_status : String → Option String → Option Job → Option Job
with_status next reason none = none
with_status next reason (some job) =
    some (record job { status = next; error = error_or reason job.error })

-- `ws.onmessage`; `closure` is the job of the effect, and `fresh` the identifier made up for an entry.
unfoldable pub on_message : String → Text → WsEvent → Page → Page
on_message closure fresh (log id file message) page =
    if str_eq id closure
    then record page {
      logs = page.logs ++ (record { id = fresh; file = file; message = message } ∷ []);
    }
    else page
on_message closure fresh (status id next reason) page =
    if str_eq id closure
    then record page { status = next; job = with_status next reason page.job }
    else page
on_message closure fresh (error message) page = record page { error = some message }

abbrev plan_ready : Job → Bool
plan_ready job =
    str_eq job.job_type "tofu.plan"
    && str_eq job.status "done"
    && opt_given job.plan_path
    && opt_given job.workdir
    && not (opt_given job.environment_id)

unfoldable pub can_apply : Page → Bool
can_apply page = elim page.job [ none ↦ false | some job ↦ is_admin page.viewer && plan_ready job ]

unfoldable pub can_open_control : Option Job → Bool
can_open_control none = false
can_open_control (some job) =
    opt_given job.environment_id && (str_eq job.status "done" || str_eq job.status "failed")

-- What happens to the page.
pub data Event : Type 0 where
  load : Event
  session : Answer User → Event
  fetched : Answer (Job × Option (List LogItem)) → Event
  opened dropped : Event
  received : (closure : String) → (fresh : Text) → WsEvent → Event
  malformed : Event
  apply : Event
  applied : Answer Job → Event
  navigated : (id : String) → Event

unfoldable pub step : Page → Event → Page
step page load = record page { error = none }
step page (session (refused _)) = page
step page (session (answered me)) = record page { viewer = some me }
step page (fetched answer) = loaded answer page
step page opened = record page { connected = true }
step page dropped = record page { connected = false }
step page (received closure fresh message) = on_message closure fresh message page
step page malformed = page
step page apply =
    if can_apply page && not page.applying
    then record page { applying = true; error = none }
    else page
step page (applied (refused message)) = record page {
  error = some (message_or "failed to create apply job" message);
  applying = false;
}
step page (applied (answered _)) = record page { applying = false }
step page (navigated id) = record page { job_id = id; error = none }

unfoldable pub run : Page → List Event → Page
run page [] = page
run page (event ∷ events) = run (step page event) events

-- Where an event leads the browser.
unfoldable pub destination : Event → Option Text
destination (session (refused _)) = some (units "/login")
destination (applied (answered created)) = some (units "/jobs/" ++ units created.id)
destination load = none
destination _ = none
