-- ===== src/Server/Review/Agree.antt =====
-- The summary of a plan on both sides.
use infra_orch_studio.Common.{
  ℕ, suc, ◌+◌, ◌%◌, ◌^◌, ◌≤◌, ◌≡◌, refl, ap, subst, ◌∙◌, false, List, [], ◌∷◌, map, String, Text,
  length, All, inl, inr, ◌⊎◌, arith,
}
use infra_orch_studio.Js.Number.{Number, of_ℕ, lt, ge, add, one, whole, is_nan}
use infra_orch_studio.Api.{EnvironmentSpec, Instance}
use infra_orch_studio.View
use infra_orch_studio.View.{
  instance_total_from, summarize_spec, at_least_two, build_impact_summary, downtime_of,
  cost_delta_of,
}
use infra_orch_studio.Validation.Wizard
use infra_orch_studio.Validation.Wizard.Accepts.{
  total_from-IsAcceptable, IsAcceptable, IsInstance, IsCount,
}
use infra_orch_studio.Server.Validation.Decode.{
  decode_instance, decode_spec, IsPlainInstance, IsWritten,
}
use infra_orch_studio.Server.Validation.Instances.{size_cases, two_sizes, total_from-two}
use infra_orch_studio.Server.Go.{trim_space}
use infra_orch_studio.Server.Validation.{GoInstance, normalize_instance, normalize_environment_spec}
use infra_orch_studio.Server.Review
use infra_orch_studio.Server.Review.{instance_total, two_or_more, impact_of}

-- What both sides add up, when it is one or two.
abbrev pub SameTotal : List Instance → ℕ → Type 0
SameTotal items n =
    (instance_total_from (of_ℕ 0) items ≡ of_ℕ n)
    × (Review.total_from 0 (map decode_instance items) ≡ n)
    × ((n ≡ 1) ⊎ (n ≡ 2))

one_total : (i : Instance) (k : ℕ) → i.count ≡ of_ℕ k → (k ≡ 1) ⊎ (k ≡ 2) → SameTotal (i ∷ []) k
unfolding instance_total_from View.or_zero of_ℕ add one Review.total_from decode_instance whole
one_total i k e (inl h) = (rw (e, h) refl, rw (e, h) refl, inl h)
one_total i k e (inr h) = (rw (e, h) refl, rw (e, h) refl, inr h)

two_total : (i j : Instance) → i.count ≡ of_ℕ 1 → j.count ≡ of_ℕ 1 → SameTotal (i ∷ j ∷ []) 2
unfolding instance_total_from View.or_zero of_ℕ add one Review.total_from decode_instance whole
two_total i j a b = (rw (a, b) refl, rw (a, b) refl, inr refl)

totals_agree :
    (items : List Instance)
    → 1 ≤ length items
    → length items ≤ 2
    → All IsPlainInstance items
    → All IsInstance items
    → lt (of_ℕ 2) (Wizard.total_from (of_ℕ 0) items) ≡ false
    → (n : ℕ) × SameTotal items n
totals_agree [] low high p h t = absurd (omega arith)
totals_agree (i ∷ []) low high (p, _) (h, _) t =
    (p.size, one_total i p.size p.sized (size_cases p.size (subst IsCount p.sized h.counted)))
totals_agree (i ∷ j ∷ []) low high (p, (q, _)) (h, (g, _)) t =
    let (first, second) =
      two_sizes p.size q.size (subst IsCount p.sized h.counted) (subst IsCount q.sized g.counted)
        (subst (λ n. lt (of_ℕ 2) n ≡ false) (total_from-two i j p.size q.size p.sized q.sized) t) in
    (2, two_total i j (p.sized ∙ ap of_ℕ first) (q.sized ∙ ap of_ℕ second))
totals_agree (_ ∷ _ ∷ _ ∷ _) low high p h t = absurd (omega arith)

same_test : (n : ℕ) → (n ≡ 1) ⊎ (n ≡ 2) → at_least_two (of_ℕ n) ≡ two_or_more n
unfolding ge lt of_ℕ one is_nan
same_test n (inl h) = rw h refl
same_test n (inr h) = rw h refl

-- The normalization keeps the counts.
total_from-normalize :
    (total : ℕ) (items : List GoInstance)
    → Review.total_from total (map normalize_instance items) ≡ Review.total_from total items
unfolding Review.total_from normalize_instance
total_from-normalize total [] = refl
total_from-normalize total (item ∷ items) =
    total_from-normalize ((total + item.count) % 2 ^ 64) items

length-map : (groups : List Text) → length (map trim_space groups) ≡ length groups
length-map [] = refl
length-map (g ∷ gs) = ap suc (length-map gs)

-- For an environment that the wizard accepts, with whole counts and written as the server reads it,
-- whose tenant, network and subnet have names without spaces around them, the summary that the
-- client would compute in English and the one that the server computes of the spec that it has
-- normalized are the same, where both print the same numbers in the same way.
pub impacts_agree :
    (show_number : Number → Text) (show : ℕ → Text) (s : EnvironmentSpec) (operation : String)
    → ((n : ℕ) → show_number (of_ℕ n) ≡ show n)
    → IsAcceptable s
    → IsWritten s
    → trim_space s.tenant_name ≡ s.tenant_name
    → trim_space s.network.name ≡ s.network.name
    → trim_space s.subnet.name ≡ s.subnet.name
    → let mine = build_impact_summary show_number s operation false in
      let theirs = impact_of show (normalize_environment_spec (decode_spec s)) operation in
      (mine.downtime ≡ theirs.downtime)
      × (mine.blast_radius ≡ theirs.blast_radius)
      × (mine.cost_delta ≡ theirs.cost_delta)
unfolding build_impact_summary impact_of summarize_spec downtime_of cost_delta_of instance_total
    decode_spec normalize_environment_spec
impacts_agree show_number show s operation printed ok written tenant network subnet =
    let (n, (mine, theirs, small)) =
      totals_agree s.instances ok.at_least_one ok.at_most_two written.instances ok.each
        (total_from-IsAcceptable s ok) in
    let kept = total_from-normalize 0 (map decode_instance s.instances) in
    (
      rw (mine, kept, theirs, same_test n small) refl,
      rw (tenant, network, subnet) refl,
      rw
          (
            mine,
            kept,
            theirs,
            length-map (Wizard.groups_of s.security_groups),
            printed n,
            printed (length (Wizard.groups_of s.security_groups)),
          )
          refl,
    )
