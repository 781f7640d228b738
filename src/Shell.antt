-- ===== src/Shell.antt =====
-- The shell of the web client, web/src/App.tsx, and the addresses that web/src/api.ts makes. The
-- parts of a URL, which `new URL` and `window.location` give, are parameters.
pub mod Routes
pub mod Sockets
pub mod Navigation
pub mod Dialog
use infra_orch_studio.Common.{
  ℕ, ◌-◌, Bool, true, false, not, ◌&&◌, ◌||◌, Option, none, some, List, [], ◌∷◌, ◌++◌, String, Text,
  units, text_eq, if◌then◌else◌, take, length, truthy, ◌==◌,
}
use infra_orch_studio.Pages.Fetch.{Answer, answered, refused}
use infra_orch_studio.Js.Text.{starts_with, ends_with, includes}

pub data RouteKey : Type 0 where
  guided_start create templates audit users review approval environment_detail : RouteKey
  environments job_detail jobs dashboard : RouteKey

unfoldable pub route_key : Text → RouteKey
route_key path =
    if starts_with (units "/guided-start") path
    then guided_start
    else if starts_with (units "/create-environment") path
    then create
    else if starts_with (units "/providers") path
    then templates
    else if starts_with (units "/audit") path
    then audit
    else if starts_with (units "/templates") path
    then templates
    else if starts_with (units "/users") path
    then users
    else if includes (units "/review") path
    then review
    else if includes (units "/approval") path
    then approval
    else if starts_with (units "/environments/") path
    then environment_detail
    else if starts_with (units "/environments") path
    then environments
    else if starts_with (units "/jobs/") path
    then job_detail
    else if starts_with (units "/jobs") path
    then jobs
    else dashboard

unfoldable pub defer_guide_panel : Text → Bool
defer_guide_panel path = elim (route_key path) [
  | environment_detail ↦ true
  | dashboard ↦ true
  | environments ↦ true
  | _ ↦ false
]

-- `apiUrl`
unfoldable pub api_url : Text → Text → Text
api_url base_url path = if starts_with (units "http") path then path else base_url ++ path

-- `replace(/\/$/, '')`
unfoldable pub without_slash : Text → Text
without_slash path = if ends_with (units "/") path then take (length path - 1) path else path

-- `wsPath`
unfoldable pub ws_path : Text → Text
ws_path api_base_path =
    let normalized = without_slash api_base_path in
    if ends_with (units "/api") normalized
    then take (length normalized - 4) normalized ++ units "/ws"
    else normalized ++ units "/ws"

-- `wsUrl`: `host` and `path` are those of the URL `baseUrl`, when it is one.
unfoldable pub ws_url : (secure : Bool) → (location_host host path base_url : Text) → Text
ws_url secure location_host host path base_url =
    let proto = if secure then units "wss:" else units "ws:" in
    if starts_with (units "http") base_url
    then proto ++ (units "//" ++ (host ++ ws_path path))
    else proto ++ (units "//" ++ (location_host ++ ws_path base_url))

abbrev present : Option Text → Text
present none = []
present (some t) = t

-- `req` on a response: whether it is `ok`, its status, its text, which is missing when reading it
-- fails, and what its JSON gives.
unfoldable pub req {ℓ} :
    {A : Type ℓ}
    → (ℕ → Text)
    → (ok : Bool) → (status : ℕ) → Option Text
    → Answer A
    → Answer (Option A)
req show false status text json =
    refused (some (if truthy (present text) then present text else units "HTTP " ++ show status))
req show true status text (refused message) =
    if status == 204 then answered none else refused message
req show true status text (answered a) = if status == 204 then answered none else answered (some a)
