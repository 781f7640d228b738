-- ===== src/Create/Providers/Late.antt =====
-- Late answers in the provider effect of web/src/pages/CreateEnvironment.tsx.
use infra_orch_studio.Common.{
  ◌≡◌, ◌∙◌, refl, some, [], ◌∷◌, String, str_eq, Bool-cases, inl, inr, arith,
}
use infra_orch_studio.Api.{ProviderCatalog}
use infra_orch_studio.Create.Providers.{
  ProviderEvent, Choice, provider_selected, resources_answered, handle_provider, provider_effect,
  step_provider, run_provider,
}

effect_keeps :
    (c : Choice) → ((provider_effect c).name ≡ c.name) × ((provider_effect c).catalog ≡ c.catalog)
unfolding provider_effect
effect_keeps c = ground arith

step_keeps :
    (c : Choice) (e : ProviderEvent)
    → ((step_provider c e).name ≡ (handle_provider c e).name)
      × ((step_provider c e).catalog ≡ (handle_provider c e).catalog)
unfolding step_provider
step_keeps c e = elim (Bool-cases (str_eq c.name (handle_provider c e).name)) [
  | inl same ↦ rw same (refl, refl)
  | inr moved ↦ rw moved (effect_keeps (handle_provider c e))
]

-- When another provider is selected and its catalog arrives before that of the earlier provider, the
-- page ends with the name of the selected provider and the catalog of the earlier one.
pub late_answer_wins :
    (c : Choice) (other : String) (new old : ProviderCatalog)
    → ((run_provider c (
          provider_selected other
          ∷ resources_answered other new
          ∷ resources_answered c.name old
          ∷ [])).name
        ≡ other)
      × ((run_provider c (
            provider_selected other
            ∷ resources_answered other new
            ∷ resources_answered c.name old
            ∷ [])).catalog
          ≡ some old)
unfolding run_provider handle_provider
late_answer_wins c other new old =
    let first = step_provider c (provider_selected other) in
    let second = step_provider first (resources_answered other new) in
    let last = step_keeps second (resources_answered c.name old) in
    (
      last.0
          ∙ ((step_keeps first (resources_answered other new)).0
              ∙ (step_keeps c (provider_selected other)).0),
      last.1,
    )
