-- ===== src/Server/World/Marks.antt =====
-- The runner's updates of an environment keep what holds between steps.
use infra_orch_studio.Common.{
  ℕ, ◌+◌, ◌<◌, Bool, true, false, ==_iff, Option, none, some, String, given, str_eq, inl, inr, ◌≡◌,
  refl, sym, ◌∙◌, ap, subst, arith, eq_iff, Bool-cases, if◌then◌else◌,
}
use infra_orch_studio.Server.Domain.{Environment, Job}
use infra_orch_studio.Server.Changes.{Stamp}
use infra_orch_studio.Server.Runner.{
  Run, succeed_environment, fail_environment, is_stale, after_job,
}
use infra_orch_studio.Server.World.{World, update_environment, revision_fits, settled, marked_world}
use infra_orch_studio.Server.World.Kept.{set_run-IsSound}
use infra_orch_studio.Server.World.Committed.{environment-IsSound}
use infra_orch_studio.Server.World.Invariant.{
  IsSound, IsOwned, IsKnown, IsEnded, IsMark, IsRun, is_unfinished, is_worked_on, Rows,
}

pub some_inj {ℓ} : {A : Type ℓ} {a b : A} → some a ≡ some b → a ≡ b
some_inj h = cc

-- A property of what is put there holds of what is found there.
pub only {ℓ κ} : {A : Type ℓ} (P : A → Type κ) {a b : A} → P a → some a ≡ some b → P b
only P p e = subst P (some_inj e) p

-- A row that was just read is known.
pub row-IsKnown :
    {w : World}
    → IsSound w
    → (id : String) (env : Environment) → w.environments id ≡ some env
    → IsKnown w.environments w.jobs env
row-IsKnown {w} s id env h = record {
  current = env;
  stored = ap w.environments (s.environment_ids id env h) ∙ h;
  not_ahead = omega arith;
  same = λ _. refl;
  own = s.environments_own id env h;
}

-- A write whose revision fits was computed from the row that is there.
pub base-eq-current :
    {rows : Rows Environment} {jobs : Rows Job} {base : Environment} (env : Environment)
    → IsKnown rows jobs base
    → env.id ≡ base.id
    → env.revision ≡ base.revision + 1
    → revision_fits (rows env.id) env ≡ true
    → rows env.id ≡ some base
base-eq-current {rows} {base} env k same_id counted fits =
    let there : rows env.id ≡ some k.current = rw same_id k.stored in
    let equal : k.current.revision + 1 ≡ env.revision =
      (==_iff (k.current.revision + 1) env.revision).0
        (subst (λ o. revision_fits o env ≡ true) there fits) in
    there ∙ ap some (sym (k.same (omega arith)))

-- What becomes of an environment behind a job that is its last one.
pub record IsAfter (env : Environment) (job : Job) (env' : Environment) : Type 0 where
  pub same_id : env'.id ≡ env.id
  pub counted : env'.revision ≡ env.revision + 1
  pub last : env'.last_job_id ≡ job.id
  pub current : is_stale env job ≡ false

after_job-fields :
    (job : Job) (env : Environment)
    → ((after_job job env).id ≡ env.id)
      × ((after_job job env).revision ≡ env.revision)
      × ((after_job job env).last_job_id ≡ env.last_job_id)
after_job-fields job env = elim (Bool-cases (str_eq job.kind "tofu.plan")) [
  | inl p ↦ rw p (refl, refl, refl)
  | inr p ↦ elim (Bool-cases (str_eq job.kind "tofu.apply")) [
    | inl a ↦ rw (p, a) (refl, refl, refl)
    | inr a ↦ rw (p, a) (refl, refl, refl)
  ]
]

-- `if stale then none else some …`
pub unless_stale {ℓ} :
    {A : Type ℓ} (stale : Bool) (x : A) {y : A}
    → (if stale then none else some x) ≡ some y
    → (stale ≡ false) × (x ≡ y)
unless_stale true x h = cc
unless_stale false x h = (refl, some_inj h)

pub succeed_environment-IsAfter :
    (env : Environment) (job : Job) (now : ℕ) {env' : Environment}
    → succeed_environment env job now ≡ some env'
    → IsAfter env job env'
unfolding succeed_environment
succeed_environment-IsAfter env job now h =
    let (current, same) = unless_stale (is_stale env job) _ h in
    let fields = after_job-fields job _ in
    subst (IsAfter env job) same
      (record { same_id = fields.0; counted = fields.1; last = fields.2; current = current })

pub fail_environment-IsAfter :
    (env : Environment) (job : Job) (now : ℕ) {env' : Environment}
    → fail_environment env job now ≡ some env'
    → IsAfter env job env'
unfolding fail_environment
fail_environment-IsAfter env job now h =
    let (current, same) = unless_stale (is_stale env job) _ h in
    subst (IsAfter env job) same
      (record { same_id = refl; counted = refl; last = refl; current = current })

module _ {w : World} (s : IsSound w) (id : String) where
  -- An environment's last job has a name, so a job that is not stale is the last one.
  fresh_last :
      (env : Environment) (job : Job)
      → IsOwned w.jobs env
      → is_stale env job ≡ false
      → env.last_job_id ≡ job.id
  fresh_last env job own current =
      ground (arith, s.job_names env.last_job_id own.last own.stored, eq_iff env.last_job_id job.id)

  pub settled_stops :
      (job : Job) (env : Environment) (stamp : Stamp) (o : Option Environment)
      → is_worked_on (some (settled job env stamp o)) ≡ false
  settled_stops job env stamp none = refl
  settled_stops job env stamp (some env') = refl

  -- The run that follows upon the reading of the environment.
  pub settled-IsRun :
      (job : Job) (env : Environment) (stamp : Stamp) (o : Option Environment)
      → IsEnded w.environments w.jobs id job
      → w.environments job.environment_id ≡ some env
      → ((env' : Environment) → o ≡ some env' → IsAfter env job env')
      → IsRun w.environments w.jobs id (settled job env stamp o)
  settled-IsRun job env stamp none e read after = tt
  settled-IsRun job env stamp (some env') e read after =
      let a = after env' refl in
      let own = s.environments_own job.environment_id env read in
      (
        e,
        record {
          base = env;
          known = row-IsKnown s job.environment_id env read;
          same_id = a.same_id;
          counted = a.counted;
          was_last = fresh_last env job own a.current ∙ e.same_id;
          last = a.last ∙ e.same_id;
          owner = sym (a.same_id ∙ s.environment_ids job.environment_id env read);
        },
      )

  module _ (job : Job) (env : Environment) (e : IsEnded w.environments w.jobs id job)
      (m : IsMark w.environments w.jobs id job env)
      (stopped : is_worked_on (w.runs id) ≡ false) where
    module _ (fits : revision_fits (w.environments env.id) env ≡ true) where
      there : w.environments env.id ≡ some m.base
      there = base-eq-current env m.known m.same_id m.counted fits

      later :
          (current : Environment)
          → w.environments env.id ≡ some current
          → current.revision < env.revision
      later current h =
          let same : m.base ≡ current = some_inj (sym there ∙ h) in
          subst (λ (x : Environment). x.revision < env.revision) same (omega (arith, m.counted))

      none_left :
          (i : String) (j : Job)
          → w.jobs i ≡ some j
          → is_unfinished (w.runs i) j ≡ true
          → given j.environment_id ≡ true
          → j.environment_id ≡ env.id
          → ⊥
      none_left i j h u g owner =
          let b = s.unfinished i j h u g in
          let same : b.env ≡ m.base = some_inj (sym b.stored ∙ ap w.environments owner ∙ there) in
          let here : i ≡ id =
            sym b.last ∙ ap (λ (x : Environment). x.last_job_id) same ∙ m.was_last in
          let row : j ≡ e.row = some_inj (sym h ∙ ap w.jobs here ∙ e.stored) in
          clash here row u e.not_queued stopped
        where
          neither :
              (b : Job) (run : Option Run)
              → is_unfinished run b ≡ true
              → str_eq b.status "queued" ≡ false
              → is_worked_on run ≡ false
              → ⊥
          neither b run x y z = cc

          clash :
              {i id : String} {a b : Job}
              → i ≡ id
              → a ≡ b
              → is_unfinished (w.runs i) a ≡ true
              → str_eq b.status "queued" ≡ false
              → is_worked_on (w.runs id) ≡ false
              → ⊥
          clash {i} {b} here same x y z =
              neither b (w.runs i) (subst (λ (a : Job). is_unfinished (w.runs i) a ≡ true) same x) y
                (subst (λ k. is_worked_on (w.runs k) ≡ false) (sym here) z)

    owned : IsOwned w.jobs env
    owned = record { last = e.row; stored = ap w.jobs m.last ∙ e.stored; owned = e.owned ∙ m.owner }

    pub mark-IsSound :
        (stamp : Stamp) → IsSound (marked_world w id job env stamp (update_environment w env))
    unfolding update_environment
    mark-IsSound stamp = elim (Bool-cases (revision_fits (w.environments env.id) env)) [
      | inl fits ↦ rw fits (
          set_run-IsSound (environment-IsSound s env (later fits) w.audits owned (none_left fits))
            id _ refl (λ r h. only (IsRun _ w.jobs id) tt h))
      | inr late ↦
          rw late (set_run-IsSound s id _ refl (λ r h. only (IsRun w.environments w.jobs id) tt h))
    ]
