-- ===== src/Pages/Users/Settle.antt =====
-- How long the handlers of web/src/pages/Users.tsx run.
use infra_orch_studio.Common.{
  ℕ, suc, ◌+◌, ◌*◌, ◌≤◌, ◌<◌, ◌≡◌, refl, ap, ◌⊎◌, inl, inr, Bool, false, Option, none, some, List,
  [], ◌∷◌, ◌++◌, arith, length, is_some,
}
use infra_orch_studio.Pages.Fetch.{Answer, answered, refused}
use infra_orch_studio.Pages.Users.{
  Page, Handler, Stage, changing, asking_me, asking_users, asking_events, Reply, Task, resume, seen,
}
use infra_orch_studio.Pages.Users.Release.{
  World, with_stage, answer, get_reply, Reach, next, IsHeld, Reach-IsHeld,
}

-- The answers that a handler awaits at most, the present one included.
abbrev pub rounds : Stage → ℕ
rounds changing = 4
rounds asking_me = 3
rounds asking_users = 2
rounds asking_events = 1

abbrev pub rounds_of : List Task → ℕ
rounds_of [] = 0
rounds_of (task ∷ tasks) = rounds task.stage + rounds_of tasks

-- A run in which `n` requests are answered, and nothing else happens.
pub data Answers (ko : Bool) (w : World) : ℕ → World → Type 0 where
  none_yet : Answers ko w 0 w
  one_more :
      {n : ℕ} {v : World}
      → Answers ko w n v
      → (before after : List Task) → (task : Task) → (got : Answer (Reply task.stage))
      → v.tasks ≡ before ++ (task ∷ after)
      → Answers ko w (suc n) (answer ko v.page before task after got)

rounds_of-append : (xs ys : List Task) → rounds_of (xs ++ ys) ≡ rounds_of xs + rounds_of ys
rounds_of-append [] ys = omega arith
rounds_of-append (x ∷ xs) ys = omega (arith, rounds_of-append xs ys)

rounds-le : (s : Stage) → rounds s ≤ 4
rounds-le changing = omega arith
rounds-le asking_me = omega arith
rounds-le asking_users = omega arith
rounds-le asking_events = omega arith

rounds_of-le : (tasks : List Task) → rounds_of tasks ≤ 4 * length tasks
rounds_of-le [] = omega arith
rounds_of-le (t ∷ ts) = omega (arith, rounds-le t.stage, rounds_of-le ts)

resume-rounds :
    (ko : Bool) (h : Handler) (s : Stage) (got : Answer (Reply s)) (page : Page)
    → rounds_of (with_stage h (resume ko h s got page).1 []) < rounds s
unfolding resume seen
resume-rounds ko h changing (refused m) page = omega arith
resume-rounds ko h asking_me (refused m) page = omega arith
resume-rounds ko h asking_users (refused m) page = omega arith
resume-rounds ko h asking_events (refused m) page = omega arith
resume-rounds ko h changing (answered u) page = omega arith
resume-rounds ko h asking_me (answered u) page = ground arith
resume-rounds ko h asking_users (answered u) page = omega arith
resume-rounds ko h asking_events (answered u) page = omega arith

rounds_of-with_stage :
    (h : Handler) (s : Option Stage) (after : List Task)
    → rounds_of (with_stage h s after) ≡ rounds_of (with_stage h s []) + rounds_of after
rounds_of-with_stage h none after = omega arith
rounds_of-with_stage h (some s) after = omega arith

answer-rounds :
    (ko : Bool) (page : Page) (before after : List Task) (t : Task) (got : Answer (Reply t.stage))
    → rounds_of (answer ko page before t after got).tasks < rounds_of (before ++ (t ∷ after))
answer-rounds ko page before after t got =
    let s = (resume ko t.handler t.stage got page).1 in
    omega (
      arith,
      rounds_of-append before (t ∷ after),
      rounds_of-append before (with_stage t.handler s after),
      rounds_of-with_stage t.handler s after,
      resume-rounds ko t.handler t.stage got page,
    )

Answers-rounds :
    {ko : Bool} {w v : World} {n : ℕ} → Answers ko w n v → n + rounds_of v.tasks ≤ rounds_of w.tasks
Answers-rounds none_yet = omega arith
Answers-rounds {ko} (one_more {v} a before after t got e) =
    omega (arith, Answers-rounds a, ap rounds_of e, answer-rounds ko v.page before after t got)

Answers-Reach : {ko : Bool} {w v : World} {n : ℕ} → Reach ko w → Answers ko w n v → Reach ko v
Answers-Reach r none_yet = r
Answers-Reach r (one_more a before after t got e) =
    next (Answers-Reach r a) (get_reply before after t got e refl)

-- No button is disabled by a flag.
abbrev pub IsReleased : Page → Type 0
IsReleased page =
    (page.loading ≡ false)
    × (is_some page.status_target_id ≡ false)
    × (is_some page.role_target_id ≡ false)

IsHeld-IsReleased : (w : World) → w.tasks ≡ [] → IsHeld w → IsReleased w.page
IsHeld-IsReleased w e h = ground arith

abbrev ToAnswer : Bool → World → ℕ → World → Type 0
ToAnswer ko w n v = ((v.tasks ≡ []) × IsReleased v.page) ⊎ ((u : World) × Answers ko w (suc n) u)

to_answer :
    {ko : Bool} {w v : World} {n : ℕ} (tasks : List Task)
    → v.tasks ≡ tasks
    → IsHeld v
    → Answers ko w n v
    → ToAnswer ko w n v
to_answer {v} [] e h a = inl (e, IsHeld-IsReleased v e h)
to_answer {v} (t ∷ ts) e h a = inr (_, one_more a [] ts t (refused none) e)

-- From every state that the page reaches, if requests are answered and nothing else happens, at
-- most four answers come per running handler; until no handler runs, another answer is possible;
-- and when none runs, no button is disabled by a flag.
pub handlers_settle :
    {ko : Bool} {w v : World} {n : ℕ}
    → Reach ko w
    → Answers ko w n v
    → (n ≤ 4 * length w.tasks)
      × (((v.tasks ≡ []) × IsReleased v.page) ⊎ ((u : World) × Answers ko w (suc n) u))
handlers_settle {w} {v} r a = (
  omega (arith, Answers-rounds a, rounds_of-le w.tasks),
  to_answer v.tasks refl (Reach-IsHeld (Answers-Reach r a)) a,
)
