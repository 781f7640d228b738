-- ===== src/Server/World/Transactions.antt =====
-- The transactions of the handlers keep what holds between steps.
use infra_orch_studio.Common.{
  ℕ, ◌<◌, Bool, true, false, ◌&&◌, Option, none, some, String, Text, given, inr, ◌≡◌, refl, sym,
  ◌∙◌, ap, subst, arith, if◌then◌else◌,
}
use infra_orch_studio.Server.Lifecycle.{is_environment_busy}
use infra_orch_studio.Server.Domain.{User, Environment, Job}
use infra_orch_studio.Server.Changes.{Stamp}
use infra_orch_studio.Server.Handlers.{
  Write, create, update, Body, CreateRequest, create_environment,
}
use infra_orch_studio.Server.Ensures.{ensured}
use infra_orch_studio.Server.World.{World, Request, writing, handle, commit, revision_fits, is_free}
use infra_orch_studio.Server.World.Proposals.{
  IsNext, Proposes, ProposesNew, handle-Proposes, create_environment-Proposes,
}
use infra_orch_studio.Server.World.Committed.{environment-IsSound, queued-IsSound}
use infra_orch_studio.Server.World.Marks.{some_inj, base-eq-current}
use infra_orch_studio.Server.World.Invariant.{
  IsSound, IsOwned, IsKnown, IsFlight, is_unfinished, Rows,
}

-- `if test then some … else none`
pub when_some {ℓ} :
    {A : Type ℓ} (test : Bool) (x : A) {y : A}
    → (if test then some x else none) ≡ some y
    → (test ≡ true) × (x ≡ y)
when_some true x h = (refl, some_inj h)
when_some false x h = cc

both : (a b : Bool) → (a && b) ≡ true → (a ≡ true) × (b ≡ true)
both a b h = ground arith

free {ℓ} : {A : Type ℓ} (o : Option A) → is_free o ≡ true → o ≡ none
free none h = refl
free (some a) h = cc

-- What a handler computed from an environment that it read may be written.
pub write-IsFlight :
    {rows : Rows Environment} {jobs : Rows Job} {base : Environment} (write : Write)
    → IsKnown rows jobs base
    → Proposes base write
    → IsFlight rows jobs (writing write)
write-IsFlight (create env job audit) k p = absurd p
write-IsFlight {base} (update env none audit) k (n, same) = (base, k, n, same)
write-IsFlight {base} (update env (some job) audit) k (n, q) = (base, k, n, q)

pub new-IsFlight :
    (rows : Rows Environment) (jobs : Rows Job) (write : Write)
    → ProposesNew write
    → IsFlight rows jobs (writing write)
new-IsFlight rows jobs (create env job audit) q = q
new-IsFlight rows jobs (update env job audit) p = absurd p

module _ {w : World} (s : IsSound w) where
  module _ {base env : Environment} (k : IsKnown w.environments w.jobs base) (n : IsNext base env)
      (fits : revision_fits (w.environments env.id) env ≡ true) where
    there : w.environments env.id ≡ some base
    there = base-eq-current env k n.same_id n.counted fits

    later :
        (current : Environment)
        → w.environments env.id ≡ some current
        → current.revision < env.revision
    later current h =
        let same : base ≡ current = some_inj (sym there ∙ h) in
        subst (λ (x : Environment). x.revision < env.revision) same (omega (arith, n.counted))

    idle :
        (current : Environment)
        → w.environments env.id ≡ some current
        → is_environment_busy current.status ≡ false
    idle current h =
        subst (λ (x : Environment). is_environment_busy x.status ≡ false) (some_inj (sym there ∙ h))
          n.was_idle

    none_left :
        (i : String) (j : Job)
        → w.jobs i ≡ some j
        → is_unfinished (w.runs i) j ≡ true
        → given j.environment_id ≡ true
        → j.environment_id ≡ env.id
        → ⊥
    none_left i j h u g owner =
        let b = s.unfinished i j h u g in
        clash (idle b.env (ap w.environments (sym owner) ∙ b.stored)) b.busy
      where
        clash : {x : Bool} → x ≡ false → x ≡ true → ⊥
        clash p q = cc

    kept_last : env.last_job_id ≡ base.last_job_id → IsOwned w.jobs env
    kept_last same = record {
      last = k.own.last;
      stored = ap w.jobs same ∙ k.own.stored;
      owned = k.own.owned ∙ sym n.same_id;
    }

  -- A creation finds no environment and no job with its identifiers.
  not_there :
      (env current : Environment) {A : Type 0}
      → w.environments env.id ≡ none
      → w.environments env.id ≡ some current
      → A
  not_there env current h e = absurd (cc)

  pub commit-IsSound :
      (write : Write) {w' : World}
      → IsFlight w.environments w.jobs (writing write)
      → commit w write ≡ some w'
      → IsSound w'
  unfolding commit
  commit-IsSound (create env job audit) q h =
      let (tests, same) = when_some _ _ h in
      let (free_id, fresh) = both _ _ tests in
      let free_env : w.environments env.id ≡ none = free _ free_id in
      subst IsSound same (
        queued-IsSound s env (λ current e. not_there env current free_env e) _
          (λ current e. not_there env current free_env e) job (free _ fresh) q)
  commit-IsSound (update env none audit) (base, k, n, last) h =
      let (fits, same) = when_some _ _ h in
      subst IsSound same (
        environment-IsSound s env (later k n fits) _ (kept_last k n fits last) (none_left k n fits))
  commit-IsSound (update env (some job) audit) (base, k, n, q) h =
      let (tests, same) = when_some _ _ h in
      let (fits, fresh) = both _ _ tests in
      subst IsSound same
        (queued-IsSound s env (later k n fits) _ (idle k n fits) job (free _ fresh) q)

  pub handle-IsFlight :
      (show : ℕ → Text) (stamp : Stamp) (user : User) (req : Request) (env : Environment)
      (write : Write)
      → given stamp.job_id ≡ true
      → IsKnown w.environments w.jobs env
      → handle show stamp w.jobs user req env ≡ inr write
      → IsFlight w.environments w.jobs (writing write)
  handle-IsFlight show stamp user req env write named k h = write-IsFlight write k (
      ensured
        (handle-Proposes show stamp named user env w.jobs req (λ job read.
          ap (λ (x : Job). x.environment_id) (some_inj (sym read ∙ k.own.stored)) ∙ k.own.owned))
        write h)

  pub create-IsFlight :
      (show : ℕ → Text) (stamp : Stamp) (user : User) (body : Body CreateRequest) (write : Write)
      → given stamp.job_id ≡ true
      → create_environment show stamp user body ≡ inr write
      → IsFlight w.environments w.jobs (writing write)
  create-IsFlight show stamp user body write named h =
      new-IsFlight w.environments w.jobs write
        (ensured (create_environment-Proposes show stamp user body named) write h)
