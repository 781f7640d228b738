-- ===== src/Create/Review.antt =====
-- What web/src/pages/CreateEnvironment.tsx has shown when it creates an environment.
pub mod Fresh
use infra_orch_studio.Common.{
  ℕ, ◌≡◌, refl, subst, ◌∙◌, inl, inr, Bool, true, false, ◌&&◌, ==_iff, length, sym, Option, none,
  some, List, [], ◌∷◌, String, Text, units, truthy, eq_iff, ◌==◌, length-eq-zero_iff, arith,
  Bool-cases,
}
use infra_orch_studio.Api.{EnvironmentSpec}
use infra_orch_studio.UiCopy.{text_given}
use infra_orch_studio.Validation.Wizard.{field_errors}
use infra_orch_studio.Validation.Wizard.Accepts.{IsAcceptable, field_errors-eq-nil_iff}
use infra_orch_studio.Create.{
  PreviewRequest, Preview, Wizard, initial, restore, use_draft, take_preview, answer_preview,
  closure_of, is_live, previewed, not_previewed, PreviewResult, can_create, Event, signed_in,
  draft_restored, preview_answered, create_pressed, draft_used, handle, same_dependencies,
  preview_effect, settle, created, step_wizard, run_wizard, message_or,
}
use infra_orch_studio.Create.Review.Fresh.{
  at_review, IsCurrent, IsLive, Shows, IsKnown, IsFresh, Agrees, IsFresh-Agrees, IsNoAnswer,
  handle-Agrees, preview_effect-IsFresh,
}

message_or-given :
    (fallback : String) (m : Option Text)
    → truthy (units fallback) ≡ true
    → text_given (some (message_or fallback m)) ≡ true
message_or-given fallback none h = h
message_or-given fallback (some m) h = ground arith

take_preview-IsFresh :
    (w : Wizard) (r : PreviewRequest) (result : PreviewResult)
    → IsCurrent w r
    → IsFresh (take_preview r result (record w { live = none }))
unfolding take_preview
take_preview-IsFresh w r (previewed signals) c = record {
  live = tt;
  known = tt;
  shown = λ _ _ _. c;
}
take_preview-IsFresh w r (not_previewed m) c = record {
  live = tt;
  known = tt;
  shown =
      λ _ _ clear. absurd (ground (arith, message_or-given "failed to load review preview" m refl));
}

closure_of-token :
    (token : ℕ) (sent : List PreviewRequest) (r : PreviewRequest)
    → closure_of token sent ≡ some r
    → r.token ≡ token
unfolding closure_of
closure_of-token token [] r found = cc
closure_of-token token (q ∷ sent) r found = elim (Bool-cases (q.token == token)) [
  | inl mine ↦ ground (arith, ==_iff q.token token)
  | inr other ↦ closure_of-token token sent r (rw other at found)
]

-- A closure that is live is the request under way, which is for what the wizard holds.
live_closure-IsCurrent :
    (w : Wizard) (live : Option PreviewRequest) (r : PreviewRequest)
    → IsLive w live
    → IsKnown w.sent live
    → closure_of r.token w.sent ≡ some r
    → is_live live r.token ≡ true
    → IsCurrent w r
unfolding is_live
live_closure-IsCurrent w (some q) r current known found alive =
    let same : q.token ≡ r.token = (==_iff q.token r.token).0 alive in
    let equal : some q ≡ some r = sym known ∙ (rw same found) in
    let equal' : q ≡ r = cc in subst (IsCurrent w) equal' current
live_closure-IsCurrent w none r current known found alive = absurd (ground arith)

answer_preview-IsFresh :
    (w : Wizard) (closure : Option PreviewRequest) (token : ℕ) (result : PreviewResult)
    → closure_of token w.sent ≡ closure
    → IsFresh w
    → IsFresh (answer_preview closure result w)
unfolding answer_preview
answer_preview-IsFresh w none token result found h = h
answer_preview-IsFresh w (some r) token result found h =
    elim (Bool-cases (is_live w.live r.token)) [
      | inl mine ↦
          let named = closure_of-token token w.sent r found in
          rw mine (
            take_preview-IsFresh w r result (
              live_closure-IsCurrent w w.live r h.live h.known
                (subst (λ t. closure_of t w.sent ≡ some r) (sym named) found) mine))
      | inr other ↦ rw other h
    ]

settle-IsFresh : (v w : Wizard) → (same_dependencies v w ≡ true → IsFresh w) → IsFresh (settle v w)
unfolding settle
settle-IsFresh v w h = elim (Bool-cases (same_dependencies v w)) [
  | inl same ↦ rw same (h same)
  | inr other ↦ rw other (preview_effect-IsFresh w)
]

handled-IsFresh :
    (show : ℕ → Text) (w : Wizard) (e : Event)
    → IsNoAnswer e
    → IsFresh w
    → IsFresh (settle w (handle show w e))
handled-IsFresh show w e n h =
    settle-IsFresh w (handle show w e) (λ same. IsFresh-Agrees (handle-Agrees show w e n same) h)

step_wizard-IsFresh :
    (show : ℕ → Text) (w : Wizard) (e : Event) → IsFresh w → IsFresh (step_wizard show w e)
unfolding step_wizard handle
step_wizard-IsFresh show w (preview_answered token result) h =
    settle-IsFresh w (answer_preview (closure_of token w.sent) result w)
      (λ _. answer_preview-IsFresh w (closure_of token w.sent) token result refl h)
step_wizard-IsFresh show w e h = handled-IsFresh show w e tt h

initial-IsFresh : IsFresh initial
unfolding initial
initial-IsFresh = record { live = tt; known = tt; shown = λ here _ _. absurd (ground arith) }

run_wizard-IsFresh :
    (show : ℕ → Text) (w : Wizard) (events : List Event)
    → IsFresh w
    → IsFresh (run_wizard show w events)
unfolding run_wizard
run_wizard-IsFresh show w [] h = h
run_wizard-IsFresh show w (e ∷ events) h =
    run_wizard-IsFresh show (step_wizard show w e) events (step_wizard-IsFresh show w e h)

-- After any events, the preview that the review step shows once nothing is loading and no error is
-- shown answers a request for the spec and the template that the wizard holds.
pub review_shows_current :
    (show : ℕ → Text) (events : List Event) → IsFresh (run_wizard show initial events)
review_shows_current show events = run_wizard-IsFresh show initial events initial-IsFresh

created_needs :
    (w : Wizard) (e : Event) (s : EnvironmentSpec) (name : String)
    → created w e ≡ some (s, name)
    → (at_review w ≡ true) × (can_create w ≡ true) × (w.spec ≡ s) × (w.selected_template ≡ name)
unfolding created
created_needs w create_pressed s name h = ground arith
created_needs w signed_in s name h = cc
created_needs w _ s name h = cc

-- After any events, a press of the last button that sends a request sends the spec and the template
-- that the wizard holds; the spec is acceptable, and the preview that is shown answers a request
-- for the same spec and the same template.
pub create_sends_reviewed :
    (show : ℕ → Text) (events : List Event) (s : EnvironmentSpec) (name : String)
    → created (run_wizard show initial events) create_pressed ≡ some (s, name)
    → ((run_wizard show initial events).spec ≡ s)
      × ((run_wizard show initial events).selected_template ≡ name)
      × IsAcceptable s
      × Shows (run_wizard show initial events) (run_wizard show initial events).preview
unfolding can_create
create_sends_reviewed show events s name h =
    let w = run_wizard show initial events in
    let (here, can, same_spec, same_name) = created_needs w create_pressed s name h in
    let clear : field_errors w.spec ≡ [] =
      (length-eq-zero_iff (field_errors w.spec)).0 (ground arith) in
    (
      same_spec,
      same_name,
      subst IsAcceptable same_spec ((field_errors-eq-nil_iff w.spec).0 clear),
      (review_shows_current show events).shown here (ground arith) (ground arith),
    )
