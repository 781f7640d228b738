-- ===== src/Detail/Hint/Tones.antt =====
-- What the tone of the hint of web/src/pages/EnvironmentDetail.tsx says.
use infra_orch_studio.Common.{
  Bool-cases, ltb, ◌≡◌, ◌≢◌, String, str_eq, inl, inr, ◌↔◌, ◌⊎◌, Bool, true, false, Option, some,
  eq_iff, arith,
}
use infra_orch_studio.Api.{User, Environment}
use infra_orch_studio.UiCopy.{or_zero}
use infra_orch_studio.Detail.{is_admin, can_retry, can_approve}
use infra_orch_studio.Detail.Hint.{
  warning, danger, success, failed_hint, pending_hint, approved_hint, running_hint, active_hint,
  other_hint, next_action_hint,
}

-- The states that change the tone; each of the others has the tone of a piece of information.
abbrev IsOther : String → Type 0
IsOther s =
    (str_eq s "failed" ≡ false)
    × (str_eq s "pending_approval" ≡ false)
    × (str_eq s "approved" ≡ false)
    × (str_eq s "active" ≡ false)

told :
    (s : String)
    → IsOther s
    → (s ≢ "failed") × (s ≢ "pending_approval") × (s ≢ "approved") × (s ≢ "active")
told s h =
    ground (
      arith,
      eq_iff s "failed",
      eq_iff s "pending_approval",
      eq_iff s "approved",
      eq_iff s "active",
    )

status-cases :
    (s : String)
    → (s ≡ "failed")
      ⊎ ((s ≡ "pending_approval") ⊎ ((s ≡ "approved") ⊎ ((s ≡ "active") ⊎ IsOther s)))
status-cases s =
    ground (
      arith,
      eq_iff s "failed",
      eq_iff s "pending_approval",
      eq_iff s "approved",
      eq_iff s "active",
    )

-- With the page's own retry condition, the hint is a danger exactly for a failed environment
-- without a retry left, a warning exactly when the page offers a retry or an approval, and a
-- success exactly for an active environment and for an approved one that an admin looks at.
pub hint-tone_iff :
    (e : Environment) (viewer : Option User) (ko : Bool)
    → (((next_action_hint (some e) viewer (can_retry (some e)) ko).tone ≡ danger)
        ↔ ((e.status ≡ "failed") × (can_retry (some e) ≡ false)))
      × (((next_action_hint (some e) viewer (can_retry (some e)) ko).tone ≡ warning)
          ↔ ((can_retry (some e) ≡ true) ⊎ (can_approve viewer (some e) ≡ true)))
      × (((next_action_hint (some e) viewer (can_retry (some e)) ko).tone ≡ success) ↔ (
          (e.status ≡ "active")
          ⊎ ((e.status ≡ "approved")
              × (e.approval_status ≡ "approved")
              × (is_admin viewer ≡ true))))
unfolding next_action_hint can_retry can_approve failed_hint pending_hint approved_hint running_hint
    active_hint other_hint
hint-tone_iff e viewer ko = elim (status-cases e.status) [
  | inl failed ↦ elim (Bool-cases (ltb (or_zero e.retry_count) (or_zero e.max_retries))) [
    | inl left ↦
        rw (failed, left) (ground (arith, eq_iff "failed" "active", eq_iff "failed" "approved"))
    | inr spent ↦
        rw (failed, spent) (ground (arith, eq_iff "failed" "active", eq_iff "failed" "approved"))
  ]
  | inr (inl pending) ↦ rw pending (
      ground (
        arith,
        eq_iff "pending_approval" "failed",
        eq_iff "pending_approval" "active",
        eq_iff "pending_approval" "approved",
      ))
  | inr (inr (inl approved)) ↦ rw approved (
      ground (
        arith,
        eq_iff e.approval_status "approved",
        eq_iff "approved" "failed",
        eq_iff "approved" "active",
      ))
  | inr (inr (inr (inl active))) ↦ rw active (ground (arith, eq_iff "active" "failed"))
  | inr (inr (inr (inr rest))) ↦ ground (arith, rest, told e.status)
]
