-- ===== src/Pages/Jobs.antt =====
-- web/src/pages/Jobs.tsx: the jobs, their counters, and the form that asks for a plan without an
-- environment.
use infra_orch_studio.Common.{
  ℕ, ◌+◌, ◌≡◌, refl, ◌↔◌, Bool, true, false, ◌&&◌, ◌||◌, Option, none, some, List, [], ◌∷◌, ◌++◌,
  String, Text, units, str_eq, if◌then◌else◌, ltb, ◌==◌, any, arith, eq_iff, ◌∙◌, Bool-cases, inl,
  inr,
}
use infra_orch_studio.Api.{User, Job}
use infra_orch_studio.Pages.Fetch.{
  Fetch, signed_out, failed, fetched, Answer, answered, refused, message_or,
}

pub record Page : Type 0 where
  pub items : List Job
  pub viewer : Option User
  pub error : Option Text
  pub creating : Bool
  pub create_error : Option Text

-- `load`, once its requests are answered.
unfoldable pub load : Fetch (List Job × User) → Page → Page
load signed_out page = record page { error = none }
load (failed me message) page = record page {
  viewer = some me;
  error = some (message_or "failed" message);
}
load (fetched me (items, viewer)) page = record page {
  items = items;
  viewer = some viewer;
  error = none;
}

pub record Counts : Type 0 where
  pub total : ℕ
  pub queued : ℕ
  pub running : ℕ
  pub done : ℕ
  pub failed : ℕ

unfoldable pub count_one : Counts → Job → Counts
count_one acc item =
    let acc = record acc { total = acc.total + 1 } in
    if str_eq item.status "queued"
    then record acc { queued = acc.queued + 1 }
    else if str_eq item.status "running"
    then record acc { running = acc.running + 1 }
    else if str_eq item.status "done"
    then record acc { done = acc.done + 1 }
    else if str_eq item.status "failed"
    then record acc { failed = acc.failed + 1 }
    else acc

unfoldable pub counts_from : Counts → List Job → Counts
counts_from acc [] = acc
counts_from acc (item ∷ items) = counts_from (count_one acc item) items

unfoldable pub counts : List Job → Counts
counts items =
    counts_from (record { total = 0; queued = 0; running = 0; done = 0; failed = 0 }) items

unfoldable pub runner_may_be_idle : List Job → Bool
runner_may_be_idle items = let c = counts items in ltb 0 c.queued && c.running == 0

-- The submission of the form, and its answer.
unfoldable pub begin_plan : Page → Page
begin_plan page = record page { create_error = none; creating = true }

unfoldable pub end_plan : Bool → Answer Job → Page → Page × Option Text
end_plan ko (answered created) page =
    (record page { creating = false }, some (units "/jobs/" ++ units created.id))
end_plan ko (refused message) page = (
  record page {
    create_error =
        some (
          if ko then message_or "계획 생성 실패" message else message_or "failed to create plan" message);
    creating = false;
  },
  none,
)

abbrev pub has_status : String → Job → Bool
has_status status item = str_eq item.status status

abbrev pub Adds : Counts → List Job → Counts → Type 0
Adds acc items c =
    (ltb 0 c.queued ≡ (ltb 0 acc.queued || any (has_status "queued") items))
    × (ltb 0 c.running ≡ (ltb 0 acc.running || any (has_status "running") items))

not_running : (item : Job) → has_status "queued" item ≡ true → has_status "running" item ≡ false
not_running item h = rw ((eq_iff item.status "queued").0 h) refl

-- One job adds to at most one of the two counters.
count_one-Adds : (acc : Counts) (item : Job) → Adds acc (item ∷ []) (count_one acc item)
unfolding count_one
count_one-Adds acc item = elim (Bool-cases (has_status "queued" item)) [
  | inl queued ↦ rw (queued, not_running item queued) (ground arith, ground arith)
  | inr other ↦ elim (Bool-cases (has_status "running" item)) [
    | inl running ↦ rw (other, running) (ground arith, ground arith)
    | inr idle ↦ rw (other, idle) (ground arith)
  ]
]

counts_add : (items : List Job) (acc : Counts) → Adds acc items (counts_from acc items)
unfolding counts_from
counts_add [] acc = ground arith
counts_add (item ∷ items) acc =
    let (q, r) = count_one-Adds acc item in
    let (qs, rs) = counts_add items (count_one acc item) in
    (qs ∙ rw q (ground arith), rs ∙ rw r (ground arith))

-- The page says that no runner may be at work exactly when a job is queued and none is running.
pub runner_may_be_idle_iff :
    (items : List Job)
    → (runner_may_be_idle items ≡ true)
      ↔ ((any (has_status "queued") items ≡ true) × (any (has_status "running") items ≡ false))
unfolding runner_may_be_idle counts
runner_may_be_idle_iff items =
    let added =
      counts_add items (record { total = 0; queued = 0; running = 0; done = 0; failed = 0 }) in
    ground (arith, added)
