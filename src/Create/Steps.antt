-- ===== src/Create/Steps.antt =====
-- The step that web/src/pages/CreateEnvironment.tsx shows.
use infra_orch_studio.Common.{ℕ, ◌≤◌, ◌≡◌, refl, Option, none, some, List, [], ◌∷◌, Text, arith}
use infra_orch_studio.Create.{
  Wizard, initial, restore, use_draft, take_preview, answer_preview, closure_of, previewed,
  not_previewed, PreviewRequest, PreviewResult, Event, draft_restored, preview_answered, draft_used,
  handle, preview_effect, settle, step_wizard, run_wizard,
}

settle-step : (v w : Wizard) → (settle v w).step ≡ w.step
unfolding settle preview_effect
settle-step v w = ground arith

answer_preview-step :
    (closure : Option PreviewRequest) (result : PreviewResult) (w : Wizard)
    → (answer_preview closure result w).step ≡ w.step
unfolding answer_preview take_preview
answer_preview-step none result w = refl
answer_preview-step (some r) (previewed signals) w = ground arith
answer_preview-step (some r) (not_previewed m) w = ground arith

handle-step-le :
    (show : ℕ → Text) (w : Wizard) (e : Event) → w.step ≤ 6 → (handle show w e).step ≤ 6
unfolding handle restore use_draft
handle-step-le show w (preview_answered token result) h =
    omega (arith, answer_preview-step (closure_of token w.sent) result w)
handle-step-le show w (draft_restored s) h = ground arith
handle-step-le show w draft_used h = ground arith
handle-step-le show w _ h = ground arith

run-step-le :
    (show : ℕ → Text) (w : Wizard) (events : List Event)
    → w.step ≤ 6
    → (run_wizard show w events).step ≤ 6
unfolding run_wizard step_wizard
run-step-le show w [] h = h
run-step-le show w (e ∷ events) h =
    run-step-le show (settle w (handle show w e)) events
      (omega (arith, settle-step w (handle show w e), handle-step-le show w e h))

-- After any events the wizard shows one of its seven steps.
pub run_wizard-step-le :
    (show : ℕ → Text) (events : List Event) → (run_wizard show initial events).step ≤ 6
unfolding initial
run_wizard-step-le show events = run-step-le show initial events (omega arith)
