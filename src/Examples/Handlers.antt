-- ===== src/Examples/Handlers.antt =====
-- web/src/pages/Users.tsx, JobDetail.tsx, Login.tsx and Templates.tsx on concrete sequences.
use infra_orch_studio.Common.{
  keep, ◌≡◌, refl, ◌≤◌, ◌⊎◌, ◌*◌, true, false, none, some, List, [], ◌∷◌, String, Text, units, any,
  length, map, is_some, Bool,
}
use infra_orch_studio.Examples.{evaluation}
use infra_orch_studio.Examples.Pages.{ann}
use infra_orch_studio.Api.{Job}
use infra_orch_studio.Pages.Fetch.{answered, refused}
use infra_orch_studio.Pages.Users
use infra_orch_studio.Pages.Users.{
  changing, on_load, on_submit, asking_me, Task, toggle_user, start, is_enabled,
}
use infra_orch_studio.Pages.Users.Release.{
  World, first_world, with_started, answer, Reach, begin, next, get_reply, edit, press,
}
use infra_orch_studio.Pages.Users.Settle.{Answers, none_yet, one_more, IsReleased, handlers_settle}
use infra_orch_studio.Pages.JobDetail
use infra_orch_studio.Pages.JobDetail.{
  Page, WsEvent, log, status, error, Event, session, fetched, received, applied, navigated,
}
use infra_orch_studio.Pages.JobDetail.Live.{
  as_received, run-IsCoherent, run_logs, concerns, run-keep,
}
use infra_orch_studio.Pages.Login
use infra_orch_studio.Pages.Login.{signup, configured, select, typed, sign_up, sent}
use infra_orch_studio.Pages.Login.Signup.{allows, sign_up_allowed}
use infra_orch_studio.Pages.Templates
use infra_orch_studio.Pages.Templates.{
  Selection, environment_kind, list, pick, inspected, Validation, Detail,
}

abbrev mount : Task
mount = record { handler = on_load; stage = asking_me }

-- The session is known, a new account is typed in, and the form is submitted.
abbrev signed_in : World
signed_in = answer false first_world.page [] mount [] (answered ann)

abbrev filled_in : World
filled_in = record {
  page = record signed_in.page {
    email = "bob@example.com";
    password = "secret-1";
    is_admin = false;
    next_password = "";
    password_target_id = none;
  };
  tasks = signed_in.tasks;
}

abbrev submitted : World
submitted = record {
  page = (start filled_in.page Users.submit).0;
  tasks = with_started (start filled_in.page Users.submit).1 filled_in.tasks;
}

reached : Reach false submitted
unfolding evaluation
reached =
    next
      (next (next begin (get_reply [] [] mount (answered ann) refl refl))
        (edit "bob@example.com" "secret-1" "" false none refl))
      (press Users.submit refl refl)

abbrev creating : Task
creating = record { handler = on_submit; stage = changing }

abbrev refused_world : World
refused_world =
    answer false submitted.page [] creating signed_in.tasks (refused (some (units "email taken")))

handlers_settle_example :
    (1 ≤ 4 * length submitted.tasks)
    × (((refused_world.tasks ≡ []) × IsReleased refused_world.page)
        ⊎ ((u : World) × Answers false submitted 2 u))
unfolding evaluation
handlers_settle_example =
    handlers_settle reached
      (one_more none_yet [] signed_in.tasks creating (refused (some (units "email taken"))) refl)

users_tests :
    (submitted.page.loading ≡ true)
    × (is_enabled submitted.page Users.submit ≡ false)
    × (is_enabled submitted.page (toggle_user ann) ≡ false)
    × (refused_world.page.loading ≡ false)
    × (refused_world.page.error ≡ some (units "email taken"))
unfolding evaluation
users_tests = (refl, refl, refl, refl, refl)

abbrev pub job_of : String → String → Job
job_of id now = record {
  id = id;
  job_type = "tofu.plan";
  status = now;
  created_at = "";
  updated_at = "";
  environment_id = none;
  operation = none;
  template_name = none;
  workdir = none;
  log_dir = none;
  plan_path = none;
  source_job_id = none;
  outputs_json = none;
  retry_count = none;
  max_retries = none;
  requested_by = none;
  error = none;
}

abbrev job_events : List JobDetail.Event
job_events =
    session (answered ann)
    ∷ received "j1" (units "a") (log "j1" none (units "init"))
    ∷ fetched (answered (job_of "j1" "queued", none))
    ∷ received "j1" (units "b") (status "j1" "running" none)
    ∷ received "j1" (units "c") (log "j2" none (units "other"))
    ∷ []

run-IsCoherent_example : (JobDetail.run (JobDetail.initial "j1") job_events).status ≡ "running"
unfolding evaluation
run-IsCoherent_example = run-IsCoherent "j1" job_events

abbrev messages : List (Text × WsEvent)
messages =
    (units "a", log "j1" none (units "init"))
    ∷ (units "b", log "j2" none (units "other"))
    ∷ (units "c", status "j1" "running" none)
    ∷ (units "d", log "j1" none (units "done"))
    ∷ []

run_logs_example :
    ((JobDetail.run (JobDetail.initial "j1") (map (as_received "j1") messages)).logs
      ≡ record { id = units "a"; file = none; message = units "init" }
        ∷ record { id = units "d"; file = none; message = units "done" }
        ∷ [])
    × (is_some (JobDetail.run (JobDetail.initial "j1") (map (as_received "j1") messages)).job
        ≡ false)
    × ((JobDetail.run (JobDetail.initial "j1") (map (as_received "j1") messages)).connected ≡ false)
unfolding evaluation
run_logs_example = run_logs "j1" (JobDetail.initial "j1") messages

-- After a change of address the job of the former address is shown with a status of the new one.
stale_test :
    (JobDetail.run (JobDetail.initial "j1") (
      fetched (answered (job_of "j1" "done", none))
      ∷ navigated "j2"
      ∷ fetched (refused (some (units "not found")))
      ∷ received "j2" (units "a") (status "j2" "running" none)
      ∷ [])).job
    ≡ some (job_of "j1" "running")
unfolding evaluation
stale_test = refl

abbrev login_events : List Login.Event
login_events = configured (answered true) ∷ select signup ∷ typed "bob@example.com" "secret-1" ∷ []

sign_up_allowed_example : any allows login_events ≡ true
unfolding evaluation
sign_up_allowed_example =
    sign_up_allowed false login_events Login.submit "bob@example.com" "secret-1" refl

abbrev basic : Selection
basic = record { kind = environment_kind; name = "basic" }

abbrev edge : Selection
edge = record { kind = environment_kind; name = "edge" }

abbrev detail_of : Selection → Bool → Detail
detail_of s valid = record { of = s; validation = record { of = s; valid = valid } }

-- The answer about the template that was selected first comes last, and is shown for the other.
late_template_test :
    (Templates.run Templates.initial (
      list (answered ("basic" ∷ "edge" ∷ [], []))
      ∷ pick edge
      ∷ inspected edge (answered (detail_of edge false))
      ∷ inspected basic (answered (detail_of basic true))
      ∷ [])).validation
    ≡ some (record { of = basic; valid = true })
unfolding evaluation
late_template_test = refl

run-keep_example :
    JobDetail.run (JobDetail.initial "j1") (map (as_received "j1") messages)
    ≡ JobDetail.run
        (JobDetail.initial "j1")
        (map (as_received "j1") (keep (concerns "j1") messages))
run-keep_example = run-keep "j1" (JobDetail.initial "j1") messages
