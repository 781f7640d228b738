-- ===== src/Server/World/Inserted.antt =====
-- A job that belongs to no environment is inserted without touching what holds between steps.
use infra_orch_studio.Common.{
  true, none, String, given, inl, inr, ◌≡◌, refl, sym, ◌∙◌, ap, arith, eq_iff,
}
use infra_orch_studio.Server.Domain.{Job}
use infra_orch_studio.Server.World.{World, put}
use infra_orch_studio.Server.World.Kept.{stays}
use infra_orch_studio.Server.World.Committed.{put-some, put-kept}
use infra_orch_studio.Server.World.Invariant.{
  IsSound, Grows, IsOwned-mono, IsFlight-mono, IsRun-mono,
}

module _ {w : World} (s : IsSound w) (job : Job) (fresh : w.jobs job.id ≡ none)
    (named : given job.id ≡ true) (alone : job.environment_id ≡ "") where
  insert-Grows : Grows w.jobs (put w.jobs job.id job)
  insert-Grows i old h = (old, put-kept w.jobs job.id i job old fresh h, refl)

  unowned : (j : Job) → j ≡ job → given j.environment_id ≡ true → ⊥
  unowned j same g = clash j.environment_id (ap (λ (x : Job). x.environment_id) same ∙ alone) g
    where
      clash : (t : String) → t ≡ "" → given t ≡ true → ⊥
      clash t e h = ground (arith, eq_iff t "")

  pub insert_job-IsSound : IsSound (record w { jobs = put w.jobs job.id job })
  insert_job-IsSound = record {
    environment_ids = s.environment_ids;
    environments_own = λ i e h. IsOwned-mono insert-Grows (s.environments_own i e h);
    job_ids = λ i j h. elim (put-some w.jobs job.id i job j h) [
      | inl (here, new) ↦ ap (λ (x : Job). x.id) new ∙ sym here
      | inr (_, old) ↦ s.job_ids i j old
    ];
    job_names = λ i j h. elim (put-some w.jobs job.id i job j h) [
      | inl (here, _) ↦ rw here named
      | inr (_, old) ↦ s.job_names i j old
    ];
    unfinished = λ i j h u g. elim (put-some w.jobs job.id i job j h) [
      | inl (_, new) ↦ absurd (unowned j new g)
      | inr (_, old) ↦ s.unfinished i j old u g
    ];
    requests = λ k f h. IsFlight-mono f insert-Grows (stays w.environments) (s.requests k f h);
    runs = λ i r h.
        IsRun-mono i r insert-Grows (stays w.environments)
          (λ old x. put-kept w.jobs job.id i job old fresh x) (s.runs i r h);
  }
