-- ===== src/Pages/JobDetail/Controls.antt =====
-- The links and the button of web/src/pages/JobDetail.tsx.
use infra_orch_studio.Common.{◌≡◌, true, false, none, arith}
use infra_orch_studio.Detail.{is_admin}
use infra_orch_studio.Pages.JobDetail.{
  Page, environment_route, approval_route, can_apply, can_open_control,
}

-- The button that applies a plan is offered only to an administrator, for a finished job without
-- an environment: then no link leads to an environment, and none to the approval page.
pub can_apply_excludes :
    (page : Page)
    → can_apply page ≡ true
    → (is_admin page.viewer ≡ true)
      × (environment_route page.job ≡ none)
      × (approval_route page.job ≡ none)
      × (can_open_control page.job ≡ false)
unfolding can_apply environment_route approval_route can_open_control
can_apply_excludes page h = ground arith
