-- ===== src/Pages/Users.antt =====
-- web/src/pages/Users.tsx: the accounts, and the handlers that change one. A handler sends its
-- request and then calls `load`, which asks for the session, the accounts and the events. Several
-- handlers may run at once: each is a `Task`, with the request whose answer it awaits.
pub mod Release
pub mod Settle
use infra_orch_studio.Common.{
  Bool, true, false, not, ◌&&◌, ◌||◌, Option, none, some, List, [], ◌++◌, String, Text, units,
  given, truthy, str_eq, if◌then◌else◌, keep,
}
use infra_orch_studio.Api.{User, AuditEvent}
use infra_orch_studio.UiCopy.{say}
use infra_orch_studio.Pages.Fetch.{Answer, answered, refused, message_or, is_set}

pub record Page : Type 0 where
  pub viewer : Option User
  pub users : List User
  pub items : List AuditEvent
  pub email : String
  pub password : String
  pub is_admin : Bool
  pub loading : Bool
  pub status_target_id : Option String
  pub role_target_id : Option String
  pub password_target_id : Option String
  pub next_password : String
  pub error : Option Text
  pub notice : Option Text

unfoldable pub initial : Page
initial = record {
  viewer = none;
  users = [];
  items = [];
  email = "";
  password = "";
  is_admin = false;
  loading = false;
  status_target_id = none;
  role_target_id = none;
  password_target_id = none;
  next_password = "";
  error = none;
  notice = none;
}

-- `load` alone, for the effect of the first render and the Refresh button; `onSubmit`, `onToggleUser`, `onResetPassword`, `onToggleRole`.
pub data Handler : Type 0 where
  on_load on_submit on_toggle_user on_reset_password on_toggle_role : Handler

-- The request that a handler awaits: its own, or one of `load`.
pub data Stage : Type 0 where
  changing asking_me asking_users asking_events : Stage

abbrev pub Reply : Stage → Type 0
Reply changing = User
Reply asking_me = User
Reply asking_users = List User
Reply asking_events = List AuditEvent

pub record Task : Type 0 where
  pub handler : Handler
  pub stage : Stage

-- The buttons, with the account on whose row they stand.
pub data Press : Type 0 where
  submit reset_password : Press
  toggle_user toggle_role : User → Press

-- The requests that change an account.
pub data Call : Type 0 where
  create_user : (email password : String) → (is_admin : Bool) → Call
  set_user_disabled : (id : String) → (disabled : Bool) → Call
  reset_user_password : (id password : String) → Call
  set_user_role : (id : String) → (is_admin : Bool) → Call

abbrev pub opt_str_eq : Option String → String → Bool
opt_str_eq none s = false
opt_str_eq (some t) s = str_eq t s

abbrev viewer_id : Option User → Option String
viewer_id none = none
viewer_id (some v) = some v.id

-- `viewer?.id === item.id && item.is_admin`
unfoldable pub own_admin_row : Page → User → Bool
own_admin_row page item = opt_str_eq (viewer_id page.viewer) item.id && is_set item.is_admin

-- The button is not `disabled`.
unfoldable pub is_enabled : Page → Press → Bool
is_enabled page submit = not (page.loading || not (given page.email) || not (given page.password))
is_enabled page reset_password = not (page.loading || not (given page.next_password))
is_enabled page (toggle_user item) =
    not (opt_str_eq page.status_target_id item.id || own_admin_row page item)
is_enabled page (toggle_role item) =
    not (opt_str_eq page.role_target_id item.id || own_admin_row page item)

abbrev pub cleared : Page → Page
cleared page = record page { error = none; notice = none }

abbrev reset_target : Page → Option String → Page × Option (Handler × Call)
reset_target page none = (page, none)
reset_target page (some id) =
    if given id && given page.next_password
    then (
      record (cleared page) { loading = true },
      some (on_reset_password, reset_user_password id page.next_password),
    )
    else (page, none)

-- The Refresh button: `load` up to its first `await`.
unfoldable pub refresh : Page → Page
refresh page = record page { error = none }

-- The handlers up to their first `await`.
unfoldable pub start : Page → Press → Page × Option (Handler × Call)
start page submit = (
  record (cleared page) { loading = true },
  some (on_submit, create_user page.email page.password page.is_admin),
)
start page reset_password = reset_target page page.password_target_id
start page (toggle_user item) = (
  record (cleared page) { status_target_id = some item.id },
  some (on_toggle_user, set_user_disabled item.id (not (is_set item.is_disabled))),
)
start page (toggle_role item) = (
  record (cleared page) { role_target_id = some item.id },
  some (on_toggle_role, set_user_role item.id (not (is_set item.is_admin))),
)

abbrev pub notice_line : Bool → User → (after before : String) → Text
notice_line ko user after before =
    if ko then units user.email ++ units after else units before ++ (units user.email ++ units ".")

-- What a handler does with the answer to its own request.
unfoldable pub changed : Bool → Handler → User → Page → Page
changed ko on_load user page = page
changed ko on_submit user page = record page {
  notice = some (notice_line ko user " 계정을 생성했습니다." "Created ");
  email = "";
  password = "";
  is_admin = false;
}
changed ko on_toggle_user user page = record page {
  notice = some (
      if is_set user.is_disabled
      then notice_line ko user " 계정을 비활성화했습니다." "Disabled "
      else notice_line ko user " 계정을 재활성화했습니다." "Re-enabled ");
}
changed ko on_reset_password user page = record page {
  notice = some (notice_line ko user " 계정의 비밀번호를 갱신했습니다." "Updated password for ");
  next_password = "";
  password_target_id = none;
}
changed ko on_toggle_role user page = record page {
  notice = some (
      if is_set user.is_admin
      then notice_line ko user " 계정의 관리자 권한을 부여했습니다." "Granted admin role for "
      else notice_line ko user " 계정의 관리자 권한을 해제했습니다." "Revoked admin role for ");
}

-- The `finally` branch.
unfoldable pub release : Handler → Page → Page
release on_load page = page
release on_submit page = record page { loading = false }
release on_toggle_user page = record page { status_target_id = none }
release on_reset_password page = record page { loading = false }
release on_toggle_role page = record page { role_target_id = none }

-- `load` after the answer about the session.
unfoldable pub seen : Handler → User → Page → Page × Option Stage
seen handler me page =
    if is_set me.is_admin
    then (record page { viewer = some me }, some asking_users)
    else (release handler (record page { viewer = some me; users = []; items = [] }), none)

-- A handler goes on with an answer, up to its next `await` or to its end.
unfoldable pub resume :
    Bool → Handler → (stage : Stage) → Answer (Reply stage) → Page → Page × Option Stage
resume ko handler stage (refused message) page =
    (release handler (record page { error = some (message_or "failed" message) }), none)
resume ko handler changing (answered user) page =
    (record (changed ko handler user page) { error = none }, some asking_me)
resume ko handler asking_me (answered me) page = seen handler me page
resume ko handler asking_users (answered users) page =
    (record page { users = users }, some asking_events)
resume ko handler asking_events (answered items) page =
    (release handler (record page { items = items }), none)

-- `visibleItems`
unfoldable pub visible_items : List AuditEvent → List AuditEvent
visible_items items = keep (λ item. str_eq item.action "user.provisioned") items
