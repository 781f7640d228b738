-- ===== src/Examples/System.antt =====
-- The server and its runner on concrete requests and jobs.
use infra_orch_studio.Common.{
  ℕ, ◌≡◌, refl, Bool, true, false, none, some, List, [], ◌∷◌, String, Text, units, inl, str_eq,
  if◌then◌else◌, ◌≢◌, eq_iff,
}
use infra_orch_studio.Examples.{evaluation}
use infra_orch_studio.View.{empty_environment_spec}
use infra_orch_studio.Server.Validation.Decode.{decode_spec}
use infra_orch_studio.Server.Domain.{User, Environment, Job}
use infra_orch_studio.Server.Access.{validate_environment_plan_access}
use infra_orch_studio.Server.Changes.{Stamp, planned, destroying, new_environment_plan_job}
use infra_orch_studio.Server.Runner.{prepare_destroy_plan_job}
use infra_orch_studio.Server.Lifecycle.{can_queue_plan, can_queue_apply}
use infra_orch_studio.Server.Stranded.{unknown_operation_passes, failed_plan-destroy_lost}
use infra_orch_studio.Server.Handlers.{parsed, absent, CreateRequest, ApproveRequest}
use infra_orch_studio.Server.World
use infra_orch_studio.Server.World.{
  World, Step, Reach, Request, reading, writing, empty_world, set_request,
}
use infra_orch_studio.Server.World.Stuck.{IsStuck, failure_unstored}
use infra_orch_studio.Server.World.Unfinished.{one_unfinished, read_current}
use infra_orch_studio.Server.World.Approvals.{approval_logged}
use infra_orch_studio.Server.World.Approvals.Logged.{applies_approved}

abbrev show : ℕ → Text
show n = units "0"

abbrev join : List Text → Text
join [] = []
join (part ∷ parts) = part

abbrev admin : User
admin = record { id = "user-1"; email = "admin@example.com"; is_admin = true }

abbrev stamp : ℕ → String → Stamp
stamp now job_id = record {
  now = now;
  environment_id = "env-1";
  job_id = job_id;
  audit_id = "audit";
}

abbrev consent : ApproveRequest
consent = record { comment = units "ok"; expected_revision = some 2 }

abbrev creation : CreateRequest
creation = record { spec = decode_spec empty_environment_spec; template_name = "basic" }

-- An environment in a state, with an applied directory.
abbrev idle_env : String → Environment
idle_env status = record {
  id = "env-1";
  name = units "edge";
  status = status;
  operation = "create";
  approval_status = "approved";
  spec = decode_spec empty_environment_spec;
  created_by_user_id = "user-1";
  created_by_email = "admin@example.com";
  approved_by_user_id = "user-1";
  approved_by_email = "admin@example.com";
  approved_at = some 5;
  last_plan_job_id = "job-1";
  last_apply_job_id = "job-2";
  last_job_id = "job-2";
  last_error = [];
  retry_count = 0;
  max_retries = 3;
  workdir = units "/work/job-1";
  plan_path = units "plan.bin";
  outputs_json = [];
  revision = 5;
  created_at = 1;
  updated_at = 9;
}

-- The same once the plan of an update was requested, and has failed.
abbrev planned_env : Environment
planned_env =
    planned (idle_env "active") (decode_spec empty_environment_spec) "update" (stamp 10 "job-3")

abbrev failed_env : Environment
failed_env = record planned_env {
  status = "failed";
  last_error = [];
  last_job_id = "job-3";
  revision = 7;
  updated_at = 12;
}

abbrev planned_job : Job
planned_job = new_environment_plan_job planned_env "" "admin@example.com" (stamp 10 "job-3")

failed_plan-destroy_lost_example :
    prepare_destroy_plan_job join "basic" 14
      (λ id. if str_eq id "env-1" then some (destroying failed_env (stamp 13 "job-4")) else none)
      (new_environment_plan_job
        (destroying failed_env (stamp 13 "job-4"))
        ""
        admin.email
        (stamp 13 "job-4"))
    ≡ inl (units "destroy plan requires an existing applied workdir")
unfolding evaluation
failed_plan-destroy_lost_example =
    failed_plan-destroy_lost join "basic" "update" (idle_env "active") failed_env
      (decode_spec empty_environment_spec) (stamp 10 "job-3") (stamp 13 "job-4") planned_job admin
      12 14
      (λ id. if str_eq id "env-1" then some (destroying failed_env (stamp 13 "job-4")) else none)
      refl refl refl

-- The worlds behind a creation, the run of its plan, an approval, and an apply.
abbrev Reached : Type 0
Reached = (w : World) × Reach show join w

created : Reached
unfolding evaluation
created = (
  _,
  World.next
      (World.next World.start
        (World.compute_creation 0 admin (parsed creation) (stamp 1 "job-1") _ refl refl refl))
      (World.transact 0 _ _ refl refl),
)

run_plan : Reached
unfolding evaluation created
run_plan = (
  _,
  World.next
      (World.next
        (World.next
          (World.next
            (World.next (World.next created.1 (World.claim "job-1" _ 2 refl refl))
              (World.render "job-1" _ _ "basic" (units "/work/job-1") 3 refl refl))
            (World.write_plan "job-1" _ 4 refl))
          (World.finish "job-1" _ [] 5 refl))
        (World.settle_success "job-1" _ _ (stamp 6 "") refl refl))
      (World.mark "job-1" _ _ (stamp 7 "") refl),
)

approval : Reached
unfolding evaluation created run_plan
approval = (
  _,
  World.next
      (World.next
        (World.next run_plan.1 (
          World.read_environment 1 admin (World.approve (parsed consent)) "env-1" _ refl refl refl))
        (World.compute_change 1 admin _ _ (stamp 8 "unused") _ refl refl refl))
      (World.transact 1 _ _ refl refl),
)

apply_queued : Reached
unfolding evaluation created run_plan approval
apply_queued = (
  _,
  World.next
      (World.next
        (World.next approval.1
          (World.read_environment 2 admin (World.apply absent) "env-1" _ refl refl refl))
        (World.compute_change 2 admin _ _ (stamp 9 "job-2") _ refl refl refl))
      (World.transact 2 _ _ refl refl),
)

applies_approved_example : approval_logged apply_queued.0.audits "env-1" "job-1" ≡ true
unfolding evaluation created run_plan approval apply_queued
applies_approved_example = applies_approved apply_queued.1 "job-2" _ refl refl refl

one_unfinished_example : ◌≡◌ {A = String} "job-1" "job-1"
unfolding evaluation created
one_unfinished_example = one_unfinished created.1 "job-1" "job-1" _ _ refl refl refl refl refl refl

-- A handler has read the environment of `created`.
reading_plan : Reached
unfolding evaluation created
reading_plan = (
  _,
  World.next created.1
      (World.read_environment 1 admin (World.retry absent) "env-1" _ refl refl refl),
)

read_current_example : (env : Environment) × (env ≡ env)
unfolding evaluation created reading_plan
read_current_example = (_, read_current reading_plan.1 1 admin _ _ _ refl refl refl)

differ : (s t : String) → str_eq s t ≡ false → s ≢ t
differ s t h e = clash ((eq_iff s t).1 e) h
  where
    clash : {b : Bool} → b ≡ true → b ≡ false → ⊥
    clash p q = cc

unknown_operation_passes_example :
    (validate_environment_plan_access (idle_env "active") "migrate" ≡ none)
    × (can_queue_plan "active" "migrate" ≡ false)
    × ((status approval : String) → can_queue_apply status approval "migrate" ≡ false)
unfolding evaluation
unknown_operation_passes_example =
    unknown_operation_passes (idle_env "active") "migrate" refl (differ _ _ refl) refl
      (differ _ _ refl) (differ _ _ refl) (differ _ _ refl)

-- OpenTofu works on the plan of `created`.
planning : Reached
unfolding evaluation created
planning = (
  _,
  World.next
      (World.next (World.next created.1 (World.claim "job-1" _ 2 refl refl))
        (World.render "job-1" _ _ "basic" (units "/work/job-1") 3 refl refl))
      (World.write_plan "job-1" _ 4 refl),
)

failure_unstored_example : (job : Job) × ((v : World) × Reach show join v × IsStuck v "job-1" job)
unfolding evaluation created planning
failure_unstored_example =
    (_, failure_unstored planning.1 "job-1" _ (units "no space") (stamp 5 "") refl refl)
