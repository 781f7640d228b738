-- ===== src/Server/World/Committed.antt =====
-- A transaction that changes an environment keeps what holds between steps.
use infra_orch_studio.Common.{
  ◌<◌, true, false, none, some, List, String, given, str_eq, inl, inr, ◌⊎◌, ◌≡◌, refl, sym, ◌∙◌, ap,
  subst, eq_iff, Bool-cases,
}
use infra_orch_studio.Server.Lifecycle.{is_environment_busy}
use infra_orch_studio.Server.Domain.{Environment, Job, AuditEvent}
use infra_orch_studio.Server.World.{World, put}
use infra_orch_studio.Server.World.Proposals.{IsQueued}
use infra_orch_studio.Server.World.Kept.{if-some, same_jobs}
use infra_orch_studio.Server.World.Invariant.{
  IsSound, IsOwned, IsBusyWith, Rows, Grows, GoesOn, IsOwned-mono, IsFlight-mono, IsRun-mono,
  is_unfinished,
}

module _ {A : Type 0} (rows : Rows A) where
  pub put-some :
      (id i : String) (a b : A)
      → put rows id a i ≡ some b
      → ((i ≡ id) × (b ≡ a)) ⊎ ((str_eq i id ≡ false) × (rows i ≡ some b))
  put-some id i a b h = elim (if-some (str_eq i id) (some a) (rows i) h) [
    | inl (here, new) ↦ inl ((eq_iff i id).0 here, cc)
    | inr old ↦ inr old
  ]

  pub put-here : (id i : String) (a : A) → i ≡ id → put rows id a i ≡ some a
  put-here id i a e = rw ((eq_iff i id).1 e) refl

  -- An insertion behind the test of the primary key keeps the rows that are there.
  pub put-kept :
      (id i : String) (a b : A) → rows id ≡ none → rows i ≡ some b → put rows id a i ≡ some b
  put-kept id i a b fresh h = elim (Bool-cases (str_eq i id)) [
    | inl here ↦ absurd (clash ((eq_iff i id).0 here) fresh h)
    | inr other ↦ rw other h
  ]
    where
      clash : {i id : String} {b : A} → i ≡ id → rows id ≡ none → rows i ≡ some b → ⊥
      clash e f h = cc

-- The rows of the environments with `env`, which is behind the row that is there.
put-GoesOn :
    (rows : Rows Environment) (env : Environment)
    → ((current : Environment) → rows env.id ≡ some current → current.revision < env.revision)
    → GoesOn rows (put rows env.id env)
put-GoesOn rows env later i old h = elim (Bool-cases (str_eq i env.id)) [
  | inl here ↦ (
    env,
    rw here refl,
    inr (later old (subst (λ x. rows x ≡ some old) ((eq_iff i env.id).0 here) h)),
  )
  | inr other ↦ (old, rw other h, inl refl)
]

module _ {w : World} (s : IsSound w) (env : Environment)
    (later : (current : Environment)
      → w.environments env.id ≡ some current
      → current.revision < env.revision)
    (audits : List AuditEvent) where
  -- Without a job: no job of the environment is unfinished.
  pub environment-IsSound :
      IsOwned w.jobs env
      → ((i : String) (j : Job)
          → w.jobs i ≡ some j
          → is_unfinished (w.runs i) j ≡ true
          → given j.environment_id ≡ true
          → j.environment_id ≡ env.id
          → ⊥)
      → IsSound (record w { environments = put w.environments env.id env; audits = audits })
  environment-IsSound own none_left = record {
    environment_ids = λ i e h. elim (put-some w.environments env.id i env e h) [
      | inl (here, new) ↦ ap (λ (x : Environment). x.id) new ∙ sym here
      | inr (_, old) ↦ s.environment_ids i e old
    ];
    environments_own = λ i e h. elim (put-some w.environments env.id i env e h) [
      | inl (_, new) ↦ subst (IsOwned w.jobs) (sym new) own
      | inr (_, old) ↦ s.environments_own i e old
    ];
    job_ids = s.job_ids;
    job_names = s.job_names;
    unfinished = λ i j h u g. elim (Bool-cases (str_eq j.environment_id env.id)) [
      | inl here ↦ absurd (none_left i j h u g ((eq_iff j.environment_id env.id).0 here))
      | inr other ↦
          let b = s.unfinished i j h u g in
          record { env = b.env; stored = rw other b.stored; busy = b.busy; last = b.last }
    ];
    requests = λ k f h.
        IsFlight-mono f (same_jobs w.jobs) (put-GoesOn w.environments env later) (s.requests k f h);
    runs = λ i r h.
        IsRun-mono i r (same_jobs w.jobs) (put-GoesOn w.environments env later) (λ _ x. x)
          (s.runs i r h);
  }

  -- With the job that it queues, while it was not busy.
  module _
      (idle : (current : Environment)
        → w.environments env.id ≡ some current
        → is_environment_busy current.status ≡ false)
      (job : Job) (fresh : w.jobs job.id ≡ none) (q : IsQueued env job) where
    insert-Grows : Grows w.jobs (put w.jobs job.id job)
    insert-Grows i old h = (old, put-kept w.jobs job.id i job old fresh h, refl)

    idle_clash :
        (current : Environment)
        → w.environments env.id ≡ some current
        → is_environment_busy current.status ≡ true
        → ⊥
    idle_clash current h busy = cc (idle current h)

    busy_with :
        (i : String) (j : Job)
        → put w.jobs job.id job i ≡ some j
        → is_unfinished (w.runs i) j ≡ true
        → given j.environment_id ≡ true
        → IsBusyWith (put w.environments env.id env) i j
    busy_with i j h u g = elim (put-some w.jobs job.id i job j h) [
      | inl (here, new) ↦ record {
        env = env;
        stored =
            put-here w.environments env.id j.environment_id env
              (ap (λ (x : Job). x.environment_id) new ∙ q.owned);
        busy = q.busy;
        last = q.last ∙ sym here;
      }
      | inr (_, old) ↦
          let b = s.unfinished i j old u g in
          elim (Bool-cases (str_eq j.environment_id env.id)) [
            | inl here ↦ absurd (
                idle_clash b.env (rw (← ((eq_iff j.environment_id env.id).0 here)) b.stored) b.busy)
            | inr other ↦ record {
              env = b.env;
              stored = rw other b.stored;
              busy = b.busy;
              last = b.last;
            }
          ]
    ]

    pub queued-IsSound : IsSound (record w {
      environments = put w.environments env.id env;
      jobs = put w.jobs job.id job;
      audits = audits;
    })
    queued-IsSound = record {
      environment_ids = λ i e h. elim (put-some w.environments env.id i env e h) [
        | inl (here, new) ↦ ap (λ (x : Environment). x.id) new ∙ sym here
        | inr (_, old) ↦ s.environment_ids i e old
      ];
      environments_own = λ i e h. elim (put-some w.environments env.id i env e h) [
        | inl (_, new) ↦ subst (IsOwned (put w.jobs job.id job)) (sym new) (record {
          last = job;
          stored = put-here w.jobs job.id env.last_job_id job q.last;
          owned = q.owned;
        })
        | inr (_, old) ↦ IsOwned-mono insert-Grows (s.environments_own i e old)
      ];
      job_ids = λ i j h. elim (put-some w.jobs job.id i job j h) [
        | inl (here, new) ↦ ap (λ (x : Job). x.id) new ∙ sym here
        | inr (_, old) ↦ s.job_ids i j old
      ];
      job_names = λ i j h. elim (put-some w.jobs job.id i job j h) [
        | inl (here, _) ↦ rw here q.named
        | inr (_, old) ↦ s.job_names i j old
      ];
      unfinished = busy_with;
      requests = λ k f h.
          IsFlight-mono f insert-Grows (put-GoesOn w.environments env later) (s.requests k f h);
      runs = λ i r h.
          IsRun-mono i r insert-Grows (put-GoesOn w.environments env later)
            (λ old x. put-kept w.jobs job.id i job old fresh x) (s.runs i r h);
    }
