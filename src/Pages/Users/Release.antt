-- ===== src/Pages/Users/Release.antt =====
-- The flags that disable the buttons of web/src/pages/Users.tsx, over all orders of presses and
-- answers.
use infra_orch_studio.Common.{
  ◌≡◌, refl, sym, subst, Bool, true, false, ◌||◌, Option, none, some, String, List, [], ◌∷◌, ◌++◌,
  arith, any, is_some,
}
use infra_orch_studio.Pages.Fetch.{Answer, answered, refused}
use infra_orch_studio.Pages.Users.{
  Page, initial, Handler, on_load, on_submit, on_toggle_user, on_reset_password, on_toggle_role,
  Stage, changing, asking_me, asking_users, asking_events, Reply, Task, Press, submit,
  reset_password, toggle_user, toggle_role, Call, start, changed, release, seen, refresh, resume,
  is_enabled,
}

pub record World : Type 0 where
  pub page : Page
  pub tasks : List Task

abbrev pub first_world : World
first_world = record {
  page = initial;
  tasks = record { handler = on_load; stage = asking_me } ∷ [];
}

-- The task of a request that was sent.
abbrev pub with_started : Option (Handler × Call) → List Task → List Task
with_started none tasks = tasks
with_started (some (handler, _)) tasks = record { handler = handler; stage = changing } ∷ tasks

abbrev pub with_stage : Handler → Option Stage → List Task → List Task
with_stage handler none tasks = tasks
with_stage handler (some stage) tasks = record { handler = handler; stage = stage } ∷ tasks

-- The world after the task between `before` and `after` has got its answer.
abbrev pub answer :
    Bool → Page → List Task → (task : Task) → List Task → Answer (Reply task.stage) → World
answer ko page before task after reply =
    let next = resume ko task.handler task.stage reply page in
    record { page = next.0; tasks = before ++ with_stage task.handler next.1 after }

-- What can happen: a text is typed or an account is picked for a new password, an enabled button
-- or Refresh is pressed, a request is answered.
pub data Step (ko : Bool) (w v : World) : Type 0 where
  edit :
      (email password next_password : String)
      → (is_admin : Bool) → (picked : Option String)
      → v ≡ record w {
        page = record w.page {
          email = email;
          password = password;
          is_admin = is_admin;
          next_password = next_password;
          password_target_id = picked;
        };
      }
      → Step ko w v
  press :
      (button : Press)
      → is_enabled w.page button ≡ true
      → v ≡ record {
        page = (start w.page button).0;
        tasks = with_started (start w.page button).1 w.tasks;
      }
      → Step ko w v
  press_refresh :
      v ≡ record {
        page = refresh w.page;
        tasks = record { handler = on_load; stage = asking_me } ∷ w.tasks;
      }
      → Step ko w v
  get_reply :
      (before after : List Task)
      → (task : Task) → (got : Answer (Reply task.stage)) → w.tasks ≡ before ++ (task ∷ after)
      → v ≡ answer ko w.page before task after got
      → Step ko w v

pub data Reach (ko : Bool) : World → Type 0 where
  begin : Reach ko first_world
  next : {w v : World} → Reach ko w → Step ko w v → Reach ko v

abbrev holds_form : Task → Bool
holds_form task = elim task.handler [ on_submit ↦ true | on_reset_password ↦ true | _ ↦ false ]

abbrev holds_status : Task → Bool
holds_status task = elim task.handler [ on_toggle_user ↦ true | _ ↦ false ]

abbrev holds_role : Task → Bool
holds_role task = elim task.handler [ on_toggle_role ↦ true | _ ↦ false ]

-- A flag is set only while a handler runs that will clear it.
abbrev pub IsHeld : World → Type 0
IsHeld w =
    (w.page.loading ≡ true → any holds_form w.tasks ≡ true)
    × (is_some w.page.status_target_id ≡ true → any holds_status w.tasks ≡ true)
    × (is_some w.page.role_target_id ≡ true → any holds_role w.tasks ≡ true)

any-append {ℓ} :
    {A : Type ℓ} (p : A → Bool) (xs ys : List A) → any p (xs ++ ys) ≡ (any p xs || any p ys)
any-append p [] ys = refl
any-append p (x ∷ xs) ys = ground (arith, any-append p xs ys)

-- What a flag that is still set after an answer says of the handler that went on.
abbrev Keeps : (was is : Bool) → (held goes_on : Bool) → Type 0
Keeps was is held goes_on = is ≡ true → (was ≡ true) × (held ≡ true → goes_on ≡ true)

resume_flags :
    (ko : Bool) (h : Handler) (s : Stage) (reply : Answer (Reply s)) (page : Page)
    → let next = resume ko h s reply page in
      let old : Task = record { handler = h; stage = s } in
      let tasks = with_stage h next.1 [] in
      Keeps page.loading next.0.loading (holds_form old) (any holds_form tasks)
      × Keeps
          (is_some page.status_target_id)
          (is_some next.0.status_target_id)
          (holds_status old)
          (any holds_status tasks)
      × Keeps
          (is_some page.role_target_id)
          (is_some next.0.role_target_id)
          (holds_role old)
          (any holds_role tasks)
unfolding resume changed release seen
resume_flags ko on_load s (refused m) page = ground arith
resume_flags ko on_submit s (refused m) page = ground arith
resume_flags ko on_toggle_user s (refused m) page = ground arith
resume_flags ko on_reset_password s (refused m) page = ground arith
resume_flags ko on_toggle_role s (refused m) page = ground arith
resume_flags ko on_load changing (answered u) page = ground arith
resume_flags ko on_submit changing (answered u) page = ground arith
resume_flags ko on_toggle_user changing (answered u) page = ground arith
resume_flags ko on_reset_password changing (answered u) page = ground arith
resume_flags ko on_toggle_role changing (answered u) page = ground arith
resume_flags ko on_load asking_me (answered u) page = ground arith
resume_flags ko on_submit asking_me (answered u) page = ground arith
resume_flags ko on_toggle_user asking_me (answered u) page = ground arith
resume_flags ko on_reset_password asking_me (answered u) page = ground arith
resume_flags ko on_toggle_role asking_me (answered u) page = ground arith
resume_flags ko h asking_users (answered u) page = ground arith
resume_flags ko on_load asking_events (answered u) page = ground arith
resume_flags ko on_submit asking_events (answered u) page = ground arith
resume_flags ko on_toggle_user asking_events (answered u) page = ground arith
resume_flags ko on_reset_password asking_events (answered u) page = ground arith
resume_flags ko on_toggle_role asking_events (answered u) page = ground arith

-- The others go on holding a flag when the one task between them goes on or lets go.
still_held :
    (p : Task → Bool) (t : Task) (next : Option Stage) (before after : List Task) (was is : Bool)
    → Keeps was is (p t) (any p (with_stage t.handler next []))
    → (was ≡ true → any p (before ++ (t ∷ after)) ≡ true)
    → is ≡ true
    → any p (before ++ with_stage t.handler next after) ≡ true
still_held p t none before after was is k h e =
    ground (arith, any-append p before (t ∷ after), any-append p before after)
still_held p t (some s) before after was is k h e = ground (
  arith,
  any-append p before (t ∷ after),
  any-append p before (with_stage t.handler (some s) after),
)

answer-IsHeld :
    (ko : Bool) (page : Page) (before after : List Task) (t : Task)
    → (reply : Answer (Reply t.stage))
    → IsHeld (record { page = page; tasks = before ++ (t ∷ after) })
    → IsHeld (answer ko page before t after reply)
answer-IsHeld ko page before after t reply (form, status, role) =
    let (k, l, m) = resume_flags ko t.handler t.stage reply page in
    let next = (resume ko t.handler t.stage reply page).1 in
    (
      still_held holds_form t next before after _ _ k form,
      still_held holds_status t next before after _ _ l status,
      still_held holds_role t next before after _ _ m role,
    )

start-IsHeld :
    (w : World) (button : Press)
    → IsHeld w
    → IsHeld (record {
      page = (start w.page button).0;
      tasks = with_started (start w.page button).1 w.tasks;
    })
unfolding start
start-IsHeld w submit h = ground arith
start-IsHeld w reset_password h = ground arith
start-IsHeld w (toggle_user item) h = ground arith
start-IsHeld w (toggle_role item) h = ground arith

refresh-IsHeld :
    (w : World)
    → IsHeld w
    → IsHeld (record {
      page = refresh w.page;
      tasks = record { handler = on_load; stage = asking_me } ∷ w.tasks;
    })
unfolding refresh
refresh-IsHeld w h = h

pub Step-IsHeld : {ko : Bool} {w v : World} → Step ko w v → IsHeld w → IsHeld v
Step-IsHeld {v} (edit _ _ _ _ _ e) h = subst IsHeld (sym e) h
Step-IsHeld {w} (press button _ e) h = subst IsHeld (sym e) (start-IsHeld w button h)
Step-IsHeld {w} (press_refresh e) h = subst IsHeld (sym e) (refresh-IsHeld w h)
Step-IsHeld {ko} {w} (get_reply before after t r here e) h = subst IsHeld (sym e) (
    answer-IsHeld ko w.page before after t r
      (subst (λ tasks. IsHeld (record { page = w.page; tasks = tasks })) here h))

pub Reach-IsHeld : {ko : Bool} {w : World} → Reach ko w → IsHeld w
unfolding initial
Reach-IsHeld begin = ground arith
Reach-IsHeld (next r s) = Step-IsHeld s (Reach-IsHeld r)
