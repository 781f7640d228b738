-- ===== src/Actions/Retry.antt =====
-- What the button that retries the last action sends.
use infra_orch_studio.Common.{
  ℕ, ◌≡◌, refl, Bool, true, Option, none, some, List, [], ◌∷◌, Text, is_some, All, Bool-cases, inl,
  inr,
}
use infra_orch_studio.Api.{User, Environment, AuditEvent, Job}
use infra_orch_studio.Requests.{Request, expected_revision_of}
use infra_orch_studio.Server.Revision.{validate_expected_revision}
use infra_orch_studio.UiCopy.{is_revision_conflict_error}
use infra_orch_studio.Actions.{
  Attempt, Phase, idle, executing, reloading, reloading_after_conflict, Page, Loaded, signed_out,
  arrived, failed, message_or_failed, load, begin, keep_retry, Event, press, ask, confirm, dismiss,
  press_retry, answered, refused, loaded, refresh, refreshed, begin_load, catch_error, on_refused,
  on_answered, on_loaded, start_retry, with_sent, step, run,
}

-- The request of an attempt, when it is made again.
abbrev pub request_of : Attempt → Request
request_of a = a.execute a.environment

-- Whatever the page keeps to send again is the request `r`.
abbrev Repeats : Request → Option Attempt → Type 0
Repeats r none = Unit
Repeats r (some a) = request_of a ≡ r

abbrev PhaseRepeats : Request → Phase → Type 0
PhaseRepeats r idle = Unit
PhaseRepeats r (executing a) = request_of a ≡ r
PhaseRepeats r reloading = Unit
PhaseRepeats r (reloading_after_conflict a _) = request_of a ≡ r

abbrev KeepsOnly : Request → Page → Type 0
KeepsOnly r page = Repeats r page.retry × PhaseRepeats r page.phase

abbrev pub IsNoPress : Event → Type 0
IsNoPress (press _ _) = ⊥
IsNoPress confirm = ⊥
IsNoPress _ = Unit

abbrev Sends : Request → Option Request → Type 0
Sends r none = Unit
Sends r (some q) = q ≡ r

with_sent-All :
    (r : Request) (sent : Option Request) (rest : List Request)
    → Sends r sent
    → All (λ q. q ≡ r) rest
    → All (λ q. q ≡ r) (with_sent sent rest)
with_sent-All r none rest s h = h
with_sent-All r (some q) rest s h = (s, h)

load-KeepsOnly :
    (r : Request) (reply : Loaded) (page : Page) → KeepsOnly r page → KeepsOnly r (load reply page)
unfolding load
load-KeepsOnly r signed_out page h = h
load-KeepsOnly r (arrived _ _ _ _) page h = h
load-KeepsOnly r (failed _ _) page h = h

module _ (show : ℕ → Text) (ko : Bool) (display : Text → Text) where
  on_refused-KeepsOnly :
      (r : Request) (message : Option Text) (page : Page) (phase : Phase)
      → PhaseRepeats r phase
      → KeepsOnly r page
      → KeepsOnly r (on_refused show ko display message phase page)
  unfolding on_refused catch_error keep_retry begin_load
  on_refused-KeepsOnly r message page (executing a) p h =
      elim (Bool-cases (is_revision_conflict_error (some (message_or_failed message)))) [
        | inl conflict ↦ rw conflict (h.0, p)
        | inr other ↦ rw other (p, tt)
      ]
  on_refused-KeepsOnly r message page idle p h = h
  on_refused-KeepsOnly r message page _ p h = h

  on_loaded-KeepsOnly :
      (r : Request) (reply : Loaded) (page : Page) (phase : Phase)
      → PhaseRepeats r phase
      → KeepsOnly r page
      → KeepsOnly r (on_loaded show ko display reply phase page)
  unfolding on_loaded keep_retry
  on_loaded-KeepsOnly r reply page reloading p h = ((load-KeepsOnly r reply page h).0, tt)
  on_loaded-KeepsOnly r reply page (reloading_after_conflict a m) p h = (p, tt)
  on_loaded-KeepsOnly r reply page idle p h = h
  on_loaded-KeepsOnly r reply page (executing _) p h = h

  on_answered-KeepsOnly :
      (r : Request) (page : Page) (phase : Phase)
      → KeepsOnly r page
      → KeepsOnly r (on_answered show ko display phase page)
  unfolding on_answered begin_load
  on_answered-KeepsOnly r page (executing a) h = (h.0, tt)
  on_answered-KeepsOnly r page idle h = h
  on_answered-KeepsOnly r page _ h = h

  start_retry-KeepsOnly :
      (r : Request) (attempt : Option Attempt) (page : Page)
      → Repeats r attempt
      → KeepsOnly r page
      → KeepsOnly r (start_retry attempt page).0 × Sends r (start_retry attempt page).1
  unfolding start_retry begin
  start_retry-KeepsOnly r none page p h = (h, tt)
  start_retry-KeepsOnly r (some a) page p h = elim (Bool-cases (is_some page.busy)) [
    | inl busy ↦ rw busy (h, tt)
    | inr free ↦ rw free ((tt, p), p)
  ]

  step-KeepsOnly :
      (r : Request) (page : Page) (event : Event)
      → IsNoPress event
      → KeepsOnly r page
      → KeepsOnly r (step show ko display page event).0
        × Sends r (step show ko display page event).1
  unfolding step begin_load
  step-KeepsOnly r page (press _ _) n h = absurd n
  step-KeepsOnly r page (ask _ _) n h = (h, tt)
  step-KeepsOnly r page confirm n h = absurd n
  step-KeepsOnly r page dismiss n h = (h, tt)
  step-KeepsOnly r page press_retry n h = start_retry-KeepsOnly r page.retry page h.0 h
  step-KeepsOnly r page answered n h = (on_answered-KeepsOnly r page page.phase h, tt)
  step-KeepsOnly r page (refused m) n h = (on_refused-KeepsOnly r m page page.phase h.1 h, tt)
  step-KeepsOnly r page (loaded reply) n h = (on_loaded-KeepsOnly r reply page page.phase h.1 h, tt)
  step-KeepsOnly r page refresh n h = (h, tt)
  step-KeepsOnly r page (refreshed reply) n h = (load-KeepsOnly r reply page h, tt)

  run-KeepsOnly :
      (r : Request) (page : Page) (events : List Event)
      → All IsNoPress events
      → KeepsOnly r page
      → All (λ q. q ≡ r) (run show ko display page events).1
  unfolding run
  run-KeepsOnly r page [] _ h = tt
  run-KeepsOnly r page (event ∷ events) (n, ns) h =
      let (keeps, sends) = step-KeepsOnly r page event n h in
      let rest = run-KeepsOnly r (step show ko display page event).0 events ns keeps in
      with_sent-All r (step show ko display page event).1 _ sends rest

-- While no other action is started, every request that the page sends after a failed action is the
-- request of that action, made with the environment that the page showed when it was started.
pub retries_repeat :
    (show : ℕ → Text) (ko : Bool) (display : Text → Text) (page : Page) (a : Attempt)
    (events : List Event)
    → page.phase ≡ executing a
    → page.retry ≡ none
    → All IsNoPress events
    → All (λ q. q ≡ request_of a) (run show ko display page events).1
retries_repeat show ko display page a events at_phase at_retry quiet =
    run-KeepsOnly show ko display (request_of a) page events quiet
      (rw (at_phase, at_retry) (tt, refl))

-- The request is refused, the page is loaded again, and its retry button is pressed.
abbrev pub conflict_and_retry : Text → Loaded → List Event
conflict_and_retry m reply = refused (some m) ∷ loaded reply ∷ press_retry ∷ []

-- After a revision conflict and a reload the page shows the new environment, and its retry button
-- sends the request of the old one.
pub retry_after_conflict :
    (show : ℕ → Text) (ko : Bool) (display : Text → Text) (page : Page) (a : Attempt) (m : Text)
    (me : User) (new : Environment) (audit : List AuditEvent) (jobs : List Job)
    → page.phase ≡ executing a
    → is_revision_conflict_error (some (message_or_failed (some m))) ≡ true
    → ((run show ko display page (conflict_and_retry m (arrived me new audit jobs))).0.environment
        ≡ some new)
      × ((run show ko display page (conflict_and_retry m (arrived me new audit jobs))).1
          ≡ request_of a ∷ [])
unfolding run step on_refused catch_error on_loaded load keep_retry start_retry begin
retry_after_conflict show ko display page a m me new audit jobs at_phase conflict =
    rw (at_phase, conflict) (refl, refl)

abbrev pub IsRefusedAsConflict : ℕ → Request → Type 0
IsRefusedAsConflict revision q =
    (m : Text) × (validate_expected_revision revision (expected_revision_of q) ≡ some (409, m))
    × (is_revision_conflict_error (some m) ≡ true)
