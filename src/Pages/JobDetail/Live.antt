-- ===== src/Pages/JobDetail/Live.antt =====
-- What web/src/pages/JobDetail.tsx shows while answers and messages come in any order.
use infra_orch_studio.Common.{
  ◌≡◌, refl, ap, Bool, true, false, ◌∙◌, Bool-cases, inl, inr, keep, Option, none, some, List, [],
  ◌∷◌, ◌++◌, String, Text, str_eq, arith, if◌then◌else◌, map, is_some,
}
use infra_orch_studio.Api.{Job}
use infra_orch_studio.Pages.Fetch.{Answer, answered, refused}
use infra_orch_studio.Pages.JobDetail.{
  WsEvent, log, status, error, LogEntry, LogItem, Page, initial, with_snapshot, loaded, on_message,
  Event, load, session, fetched, opened, dropped, received, malformed, apply, applied, navigated,
  step, run,
}

-- The status that the page shows is that of the job that it holds.
abbrev pub IsCoherent : Page → Type 0
IsCoherent page = elim page.job [ none ↦ Unit | some job ↦ page.status ≡ job.status ]

loaded-IsCoherent :
    (answer : Answer (Job × Option (List LogItem))) (page : Page)
    → IsCoherent page
    → IsCoherent (loaded answer page)
unfolding loaded with_snapshot
loaded-IsCoherent (refused m) page h = h
loaded-IsCoherent (answered (job, none)) page h = refl
loaded-IsCoherent (answered (job, some items)) page h = refl

on_message-IsCoherent :
    (closure : String) (fresh : Text) (e : WsEvent) (page : Page)
    → IsCoherent page
    → IsCoherent (on_message closure fresh e page)
unfolding on_message
on_message-IsCoherent closure fresh (log id file m) page h = ground arith
on_message-IsCoherent closure fresh (status id s e) page h = ground arith
on_message-IsCoherent closure fresh (error m) page h = h

step-IsCoherent : (page : Page) (e : Event) → IsCoherent page → IsCoherent (step page e)
unfolding step
step-IsCoherent page load h = h
step-IsCoherent page (session (refused _)) h = h
step-IsCoherent page (session (answered me)) h = h
step-IsCoherent page (fetched answer) h = loaded-IsCoherent answer page h
step-IsCoherent page opened h = h
step-IsCoherent page dropped h = h
step-IsCoherent page (received c f e) h = on_message-IsCoherent c f e page h
step-IsCoherent page malformed h = h
step-IsCoherent page apply h = ground arith
step-IsCoherent page (applied (refused _)) h = h
step-IsCoherent page (applied (answered _)) h = h
step-IsCoherent page (navigated id) h = h

run_keeps : (page : Page) (events : List Event) → IsCoherent page → IsCoherent (run page events)
unfolding run
run_keeps page [] h = h
run_keeps page (e ∷ es) h = run_keeps (step page e) es (step-IsCoherent page e h)

-- After any answers, messages, navigations and presses, in any order, the status that the page
-- shows is that of the job that it holds, if it holds one.
pub run-IsCoherent : (id : String) (events : List Event) → IsCoherent (run (initial id) events)
unfolding initial
run-IsCoherent id events = run_keeps (initial id) events tt

-- The lines of the log among the messages of a socket that are about a job.
abbrev pub lines_for : String → List (Text × WsEvent) → List LogEntry
lines_for id [] = []
lines_for id ((fresh, log job file m) ∷ rest) =
    if str_eq job id
    then record { id = fresh; file = file; message = m } ∷ lines_for id rest
    else lines_for id rest
lines_for id ((fresh, status _ _ _) ∷ rest) = lines_for id rest
lines_for id ((fresh, error _) ∷ rest) = lines_for id rest

abbrev pub as_received : String → Text × WsEvent → Event
as_received closure (fresh, e) = received closure fresh e

append_one {ℓ} :
    {A : Type ℓ} (xs : List A) (y : A) (zs : List A) → (xs ++ (y ∷ [])) ++ zs ≡ xs ++ (y ∷ zs)
append_one [] y zs = refl
append_one (x ∷ xs) y zs = ap (λ l. x ∷ l) (append_one xs y zs)

append_nil {ℓ} : {A : Type ℓ} (xs : List A) → xs ≡ xs ++ []
append_nil [] = refl
append_nil (x ∷ xs) = ap (λ l. x ∷ l) (append_nil xs)

-- The messages of the socket for a job append to the log exactly the lines that are about that
-- job, in their order, and do not change whether the page holds a job or whether it is connected.
pub run_logs :
    (closure : String) (page : Page) (messages : List (Text × WsEvent))
    → let next = run page (map (as_received closure) messages) in
      (next.logs ≡ page.logs ++ lines_for closure messages)
      × (is_some next.job ≡ is_some page.job)
      × (next.connected ≡ page.connected)
unfolding run step on_message
run_logs closure page [] = (append_nil page.logs, refl, refl)
run_logs closure page ((fresh, log id file m) ∷ rest) =
    let entry : LogEntry = record { id = fresh; file = file; message = m } in
    let next = on_message closure fresh (log id file m) page in
    ground (arith, run_logs closure next rest, append_one page.logs entry (lines_for closure rest))
run_logs closure page ((fresh, status id s e) ∷ rest) =
    ground (arith, run_logs closure (on_message closure fresh (status id s e) page) rest)
run_logs closure page ((fresh, error m) ∷ rest) =
    run_logs closure (on_message closure fresh (error m) page) rest

-- A message that is about the job, or that is about none.
abbrev pub concerns : String → Text × WsEvent → Bool
concerns id (fresh, log job file m) = str_eq job id
concerns id (fresh, status job s e) = str_eq job id
concerns id (fresh, error m) = true

on_message-other :
    (closure : String) (fresh : Text) (e : WsEvent) (page : Page)
    → concerns closure (fresh, e) ≡ false
    → on_message closure fresh e page ≡ page
unfolding on_message
on_message-other closure fresh (log id file m) page other = rw other refl
on_message-other closure fresh (status id s e) page other = rw other refl
on_message-other closure fresh (error m) page other = cc

-- The socket of a job changes the page as if the messages about other jobs had not come.
pub run-keep :
    (closure : String) (page : Page) (messages : List (Text × WsEvent))
    → run page (map (as_received closure) messages)
      ≡ run page (map (as_received closure) (keep (concerns closure) messages))
unfolding run step
run-keep closure page [] = refl
run-keep closure page ((fresh, e) ∷ rest) = elim (Bool-cases (concerns closure (fresh, e))) [
  | inl mine ↦ rw mine (run-keep closure (on_message closure fresh e page) rest)
  | inr other ↦
      ap (λ (p : Page). run p (map (as_received closure) rest))
        (on_message-other closure fresh e page other)
      ∙ rw other (run-keep closure page rest)
]
