-- ===== src/Actions/OneAtATime.antt =====
-- The pages have at most one action under way.
use infra_orch_studio.Common.{
  ℕ, ◌≡◌, ◌↔◌, refl, Bool, false, Option, none, some, Text, is_some, arith,
}
use infra_orch_studio.Requests.{Request}
use infra_orch_studio.Actions.{
  Attempt, idle, executing, Page, signed_out, arrived, failed, load, begin, keep_retry, Event,
  press, ask, confirm, dismiss, press_retry, answered, refused, loaded, refresh, refreshed,
  begin_load, catch_error, on_refused, on_answered, on_loaded, start_retry, start, step,
}

-- A page is busy exactly while it waits for an answer.
abbrev pub IsSteady : Page → Type 0
IsSteady page = (page.busy ≡ none) ↔ (page.phase ≡ idle)

-- What is sent by a page that begins an attempt.
abbrev pub Began : Page → Page × Option Request → Request → Type 0
Began page next r =
    (page.phase ≡ idle)
    × ((a : Attempt) × (next.0.phase ≡ executing a) × (a.execute a.environment ≡ r))

retry_sends :
    (page : Page) (kept : Option Attempt) (r : Request)
    → IsSteady page
    → (start_retry kept page).1 ≡ some r
    → Began page (start_retry kept page) r
unfolding start_retry begin
retry_sends page none r h e = cc
retry_sends page (some a) r h e =
    let free : is_some page.busy ≡ false = ground arith in
    (ground arith, (a, rw free refl, ground arith))

module _ (show : ℕ → Text) (ko : Bool) (display : Text → Text) where
  -- Every event keeps the page busy exactly while it waits for an answer.
  pub step-IsSteady :
      (page : Page) (event : Event) → IsSteady page → IsSteady (step show ko display page event).0
  unfolding step start start_retry begin on_answered on_refused catch_error on_loaded load
      keep_retry begin_load
  step-IsSteady page (press l x) h = ground arith
  step-IsSteady page (ask l x) h = h
  step-IsSteady page confirm h = ground arith
  step-IsSteady page dismiss h = h
  step-IsSteady page press_retry h = ground arith
  step-IsSteady page answered h = ground arith
  step-IsSteady page (refused m) h = ground arith
  step-IsSteady page (loaded signed_out) h = ground arith
  step-IsSteady page (loaded (arrived me env audit jobs)) h = ground arith
  step-IsSteady page (loaded (failed me m)) h = ground arith
  step-IsSteady page refresh h = ground arith
  step-IsSteady page (refreshed signed_out) h = ground arith
  step-IsSteady page (refreshed (arrived me env audit jobs)) h = ground arith
  step-IsSteady page (refreshed (failed me m)) h = ground arith

  -- A request is sent only by a page that waits for nothing, and the page then waits for its answer.
  pub step_sends :
      (page : Page) (event : Event) (r : Request)
      → IsSteady page
      → (step show ko display page event).1 ≡ some r
      → Began page (step show ko display page event) r
  unfolding step start start_retry begin
  step_sends page (press l x) r h e =
      let a : Attempt = record { label = l; execute = x; environment = page.environment } in
      let free : is_some page.busy ≡ false = ground arith in
      (ground arith, (a, rw free refl, ground arith))
  step_sends page confirm r h e = retry_sends page page.confirming r h e
  step_sends page press_retry r h e = retry_sends page page.retry r h e
  step_sends page answered r h e = cc
  step_sends page _ r h e = cc
