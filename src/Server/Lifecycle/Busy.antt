-- ===== src/Server/Lifecycle/Busy.antt =====
-- The operations of internal/domain/environment_lifecycle.go exclude one another.
use infra_orch_studio.Common.{◌≡◌, refl, ◌⊎◌, inl, inr, true, false, String, eq_iff, arith}
use infra_orch_studio.Server.Lifecycle.{
  is_environment_busy, can_queue_plan, can_approve_plan, can_queue_apply, can_queue_destroy,
  can_retry,
}

busy_cases :
    (status : String)
    → is_environment_busy status ≡ true
    → (status ≡ "planning") ⊎ ((status ≡ "applying") ⊎ (status ≡ "destroying"))
unfolding is_environment_busy
busy_cases status busy =
    ground (arith, eq_iff status "planning", eq_iff status "applying", eq_iff status "destroying")

-- While an environment is planning, applying or destroying, the server queues no plan of any
-- operation, approves nothing, queues no apply, no destroy, and no retry.
pub busy_blocks :
    (status approval operation : String)
    → is_environment_busy status ≡ true
    → (can_queue_plan status operation ≡ false)
      × (can_approve_plan status approval ≡ false)
      × (can_queue_apply status approval operation ≡ false)
      × (can_queue_destroy status ≡ false)
      × (can_retry status ≡ false)
unfolding is_environment_busy can_queue_plan can_approve_plan can_queue_apply can_queue_destroy
    can_retry
busy_blocks status approval operation busy = elim (busy_cases status busy) [
  | inl planning ↦ rw planning (refl, refl, refl, refl, refl)
  | inr (inl applying) ↦ rw applying (refl, refl, refl, refl, refl)
  | inr (inr destroying) ↦ rw destroying (refl, refl, refl, refl, refl)
]
