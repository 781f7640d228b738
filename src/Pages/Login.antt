-- ===== src/Pages/Login.antt =====
-- web/src/pages/Login.tsx: signing in, and signing up where the deployment allows it.
pub mod Signup
use infra_orch_studio.Common.{
  Bool, true, false, not, ◌&&◌, Option, none, some, List, [], ◌∷◌, String, Text, units,
  if◌then◌else◌,
}
use infra_orch_studio.UiCopy.{say}
use infra_orch_studio.Pages.Fetch.{Answer, answered, refused, message_or}

pub data Mode : Type 0 where
  login signup : Mode

pub record Page : Type 0 where
  pub email : String
  pub password : String
  pub mode : Mode
  pub allow_signup : Bool
  pub error : Option Text
  pub loading : Bool

unfoldable pub initial : Page
initial = record {
  email = "";
  password = "";
  mode = login;
  allow_signup = false;
  error = none;
  loading = false;
}

pub data Event : Type 0 where
  -- The answer to `auth.publicConfig()`: whether the deployment allows signing up.
  configured : Answer Bool → Event
  select : Mode → Event
  typed : (email password : String) → Event
  submit : Event
  replied : Answer (Unit {0}) → Event

-- The requests of the form.
pub data Call : Type 0 where
  log_in sign_up : (email password : String) → Call

-- The effect that leaves the mode of signing up where it is not allowed.
unfoldable pub settle : Page → Page
settle page = elim page.mode [
  | login ↦ page
  | signup ↦ if page.allow_signup then page else record page { mode = login }
]

abbrev is_offered : Page → Mode → Bool
is_offered page login = true
is_offered page signup = page.allow_signup

unfoldable pub handle : Bool → Page → Event → Page
handle ko page (configured (refused _)) = record page { allow_signup = false; mode = login }
handle ko page (configured (answered allowed)) = record page { allow_signup = allowed }
handle ko page (select mode) = if is_offered page mode then record page { mode = mode } else page
handle ko page (typed email password) = record page { email = email; password = password }
handle ko page submit = if page.loading then page else record page { loading = true; error = none }
handle ko page (replied (answered _)) = record page { loading = false }
handle ko page (replied (refused message)) = record page {
  error = some (if ko then message_or "요청 실패" message else message_or "failed" message);
  loading = false;
}

unfoldable pub step : Bool → Page → Event → Page
unfolding handle settle
step ko page event = settle (handle ko page event)

abbrev call_of : Page → Call
call_of page = elim page.mode [
  | login ↦ log_in page.email page.password
  | signup ↦ sign_up page.email page.password
]

-- The request that an event sends.
unfoldable pub sent : Page → Event → Option Call
sent page submit = if page.loading then none else some (call_of page)
sent page (select _) = none
sent page _ = none

unfoldable pub run : Bool → Page → List Event → Page
unfolding step
run ko page [] = page
run ko page (event ∷ events) = run ko (step ko page event) events
