-- ===== src/Pages/Login/Signup.antt =====
-- When web/src/pages/Login.tsx asks for a new account.
use infra_orch_studio.Common.{◌≡◌, Bool, true, false, ◌||◌, some, List, [], ◌∷◌, String, arith, any}
use infra_orch_studio.Pages.Fetch.{answered, refused}
use infra_orch_studio.Pages.Login.{
  login, signup, Page, initial, Event, configured, select, typed, submit, replied, sign_up, settle,
  handle, step, sent, run,
}

-- The configuration of the deployment has said that signing up is allowed.
abbrev pub allows : Event → Bool
allows (configured (answered allowed)) = allowed
allows (configured (refused _)) = false
allows submit = false
allows _ = false

-- Signing up is the mode of a page that allows it, and a page allows it once it was told so.
abbrev IsTold : Bool → Page → Type 0
IsTold told page =
    (page.mode ≡ signup → page.allow_signup ≡ true) × (page.allow_signup ≡ true → told ≡ true)

step-IsTold :
    (ko told : Bool) (page : Page) (e : Event)
    → IsTold told page
    → IsTold (told || allows e) (step ko page e)
unfolding step handle settle
step-IsTold ko told page (configured (refused m)) h = ground arith
step-IsTold ko told page (configured (answered b)) h = ground arith
step-IsTold ko told page (select login) h = ground arith
step-IsTold ko told page (select signup) h = ground arith
step-IsTold ko told page (typed a b) h = ground arith
step-IsTold ko told page submit h = ground arith
step-IsTold ko told page (replied (refused m)) h = ground arith
step-IsTold ko told page (replied (answered u)) h = ground arith

told_append : (a b c : Bool) → ((a || b) || c) ≡ (a || (b || c))
told_append a b c = ground arith

run-IsTold :
    (ko told : Bool) (page : Page) (events : List Event)
    → IsTold told page
    → IsTold (told || any allows events) (run ko page events)
unfolding run
run-IsTold ko told page [] h = ground arith
run-IsTold ko told page (e ∷ es) h =
    rw (← told_append told (allows e) (any allows es))
      (run-IsTold ko (told || allows e) (step ko page e) es (step-IsTold ko told page e h))

sent_mode :
    (page : Page) (e : Event) (email password : String)
    → sent page e ≡ some (sign_up email password)
    → page.mode ≡ signup
unfolding sent
sent_mode page submit email password h = ground arith
sent_mode page (configured _) email password h = ground arith
sent_mode page (select _) email password h = ground arith
sent_mode page (typed _ _) email password h = ground arith
sent_mode page (replied _) email password h = ground arith

-- After any events, the page sends a request for a new account only if an answer about the
-- deployment has said that signing up is allowed.
pub sign_up_allowed :
    (ko : Bool) (events : List Event) (e : Event) (email password : String)
    → sent (run ko initial events) e ≡ some (sign_up email password)
    → any allows events ≡ true
unfolding initial
sign_up_allowed ko events e email password h =
    let page = run ko initial events in
    let told = run-IsTold ko false initial events (ground arith) in
    let mode = sent_mode page e email password h in ground arith
