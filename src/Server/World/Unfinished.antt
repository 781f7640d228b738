-- ===== src/Server/World/Unfinished.antt =====
-- At any time an environment has at most one job that is queued or worked on, and no write is lost, whatever requests
-- and jobs are under way.
use infra_orch_studio.Common.{ℕ, true, some, List, String, Text, given, ◌≡◌, sym, ◌∙◌, ap}
use infra_orch_studio.Server.Lifecycle.{is_environment_busy}
use infra_orch_studio.Server.Domain.{User, Environment, Job}
use infra_orch_studio.Server.World.{World, Reach, Request, reading}
use infra_orch_studio.Server.World.Invariant.{is_unfinished}
use infra_orch_studio.Server.World.Marks.{some_inj}
use infra_orch_studio.Server.World.Steps.{Reach-IsSound}

module _ {show : ℕ → Text} {join : List Text → Text} {w : World} (reached : Reach show join w) where
  -- In every world that is reached, by any steps of the handlers, the runner and the store in any
  -- order, two jobs of one environment that are queued or that the runner works on are the same job.
  pub one_unfinished :
      (i j : String) (a b : Job)
      → w.jobs i ≡ some a
      → w.jobs j ≡ some b
      → is_unfinished (w.runs i) a ≡ true
      → is_unfinished (w.runs j) b ≡ true
      → given a.environment_id ≡ true
      → a.environment_id ≡ b.environment_id
      → i ≡ j
  one_unfinished i j a b ha hb ua ub g same =
      let s = Reach-IsSound reached in
      let x = s.unfinished i a ha ua g in
      let y = s.unfinished j b hb ub (rw (← same) g) in
      let row : x.env ≡ y.env = some_inj (sym x.stored ∙ ap w.environments same ∙ y.stored) in
      sym x.last ∙ ap (λ (e : Environment). e.last_job_id) row ∙ y.last

  -- In every world that is reached, the environment of a job that is queued or that the runner works
  -- on is stored, is busy, and has that job as its last one.
  pub unfinished_busy :
      (id : String) (job : Job)
      → w.jobs id ≡ some job
      → is_unfinished (w.runs id) job ≡ true
      → given job.environment_id ≡ true
      → (env : Environment) × (w.environments job.environment_id ≡ some env)
        × (is_environment_busy env.status ≡ true)
        × (env.last_job_id ≡ id)
  unfinished_busy id job h u g =
      let x = (Reach-IsSound reached).unfinished id job h u g in (x.env, x.stored, x.busy, x.last)

  -- In every world that is reached, an environment that a handler has read is still the stored one,
  -- as long as the stored one has its revision.
  pub read_current :
      (k : ℕ) (user : User) (req : Request) (base current : Environment)
      → w.requests k ≡ some (reading user req base)
      → w.environments base.id ≡ some current
      → current.revision ≡ base.revision
      → current ≡ base
  read_current k user req base current h stored r =
      let known = (Reach-IsSound reached).requests k (reading user req base) h in
      let row : known.current ≡ current = some_inj (sym known.stored ∙ stored) in
      sym (known.same (sym r ∙ ap (λ (e : Environment). e.revision) (sym row)) ∙ row)
