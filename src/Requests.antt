-- ===== src/Requests.antt =====
-- The `environments` client of web/src/api.ts: the request that each of its functions sends. A body
-- is kept as the fields that are encoded; `undefined` fields, which the encoding drops, are `none`.
pub mod Clients
use infra_orch_studio.Common.{ℕ, Option, none, ◌++◌, String, Text, units}
use infra_orch_studio.Api.{EnvironmentSpec}

pub data Request : Type 0 where
  list : (limit : ℕ) → Request
  get : (id : String) → Request
  create : EnvironmentSpec → (template_name : Option String) → Request
  plan :
      (id : String)
      → Option EnvironmentSpec
      → (operation template_name : Option String) → (expected_revision : Option ℕ) → Request
  approve : (id : String) → (comment : Text) → (expected_revision : Option ℕ) → Request
  apply : (id : String) → (expected_revision : Option ℕ) → Request
  retry : (id : String) → (expected_revision : Option ℕ) → Request
  destroy :
      (id : String)
      → (confirmation_name : String) → (comment : Text) → (expected_revision : Option ℕ) → Request
  audit jobs artifacts plan_review : (id : String) → Request
  preview_plan_review :
      EnvironmentSpec → (operation : Option String) → (template_name : Option String) → Request

pub data Method : Type 0 where
  get post : Method

unfoldable pub method_of : Request → Method
method_of (create _ _) = Method.post
method_of (plan _ _ _ _ _) = Method.post
method_of (approve _ _ _) = Method.post
method_of (apply _ _) = Method.post
method_of (retry _ _) = Method.post
method_of (destroy _ _ _ _) = Method.post
method_of (preview_plan_review _ _ _) = Method.post
method_of _ = Method.get

abbrev action_path : String → String → Text
action_path id action = units "/environments/" ++ (units id ++ units action)

module _ (show : ℕ → Text) where
  unfoldable pub path_of : Request → Text
  path_of (list limit) = units "/environments?limit=" ++ show limit
  path_of (Request.get id) = action_path id ""
  path_of (create _ _) = units "/environments"
  path_of (plan id _ _ _ _) = action_path id "/plan"
  path_of (approve id _ _) = action_path id "/approve"
  path_of (apply id _) = action_path id "/apply"
  path_of (retry id _) = action_path id "/retry"
  path_of (destroy id _ _ _) = action_path id "/destroy"
  path_of (audit id) = action_path id "/audit"
  path_of (jobs id) = action_path id "/jobs"
  path_of (artifacts id) = action_path id "/artifacts"
  path_of (plan_review id) = action_path id "/plan-review"
  path_of (preview_plan_review _ _ _) = units "/environments/plan-review-preview"

-- The field `expected_revision` of the body.
unfoldable pub expected_revision_of : Request → Option ℕ
expected_revision_of (plan _ _ _ _ revision) = revision
expected_revision_of (approve _ _ revision) = revision
expected_revision_of (apply _ revision) = revision
expected_revision_of (retry _ revision) = revision
expected_revision_of (destroy _ _ _ revision) = revision
expected_revision_of _ = none
