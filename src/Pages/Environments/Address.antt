-- ===== src/Pages/Environments/Address.antt =====
-- The address of web/src/pages/Environments.tsx.
use infra_orch_studio.Common.{
  ◌≡◌, refl, ap, ◌∙◌, false, some, List, [], ◌∷◌, Text, units, text_eq, truthy, if◌then◌else◌,
  arith, Bool-cases, inl, inr,
}
use infra_orch_studio.Js.Text.{trim, trim_start}
use infra_orch_studio.Js.Params
use infra_orch_studio.Js.Params.{Params}
use infra_orch_studio.Js.Params.Laws.{
  get-first, get_all-delete, get_all-set, delete_absent, set_only,
}
use infra_orch_studio.Pages.Environments.{
  FilterKey, all, pending_approval, active, failing, planning, applying, filter_text,
  parse_filter_key, set_query, set_filter, build_search_params, search_of, filter_of, normalized,
}

parse-filter_text : (f : FilterKey) → parse_filter_key (some (filter_text f)) ≡ f
unfolding parse_filter_key text_eq
parse-filter_text all = refl
parse-filter_text pending_approval = refl
parse-filter_text active = refl
parse-filter_text failing = refl
parse-filter_text planning = refl
parse-filter_text applying = refl

-- The values of the name `q`, and of `status`, that the page writes.
abbrev query_values : Text → List Text
query_values query = if truthy (trim query) then query ∷ [] else []

abbrev filter_values : FilterKey → List Text
filter_values all = []
filter_values f = filter_text f ∷ []

get_all-set_query :
    (j query : Text) (ps : Params)
    → Params.get_all j (set_query query ps)
      ≡ (if text_eq (units "q") j then query_values query else Params.get_all j ps)
get_all-set_query j query ps =
    ground (arith, get_all-set (units "q") j query ps, get_all-delete (units "q") j ps)

get_all-set_filter :
    (j : Text) (f : FilterKey) (ps : Params)
    → Params.get_all j (set_filter f ps)
      ≡ (if text_eq (units "status") j then filter_values f else Params.get_all j ps)
get_all-set_filter j all ps = get_all-delete (units "status") j ps
get_all-set_filter j pending_approval ps = get_all-set (units "status") j _ ps
get_all-set_filter j active ps = get_all-set (units "status") j _ ps
get_all-set_filter j failing ps = get_all-set (units "status") j _ ps
get_all-set_filter j planning ps = get_all-set (units "status") j _ ps
get_all-set_filter j applying ps = get_all-set (units "status") j _ ps

set_query_same :
    (query : Text) (ps : Params)
    → Params.get_all (units "q") ps ≡ query_values query
    → set_query query ps ≡ ps
set_query_same query ps h =
    ground (arith, set_only (units "q") query ps, delete_absent (units "q") ps)

set_filter_same :
    (f : FilterKey) (ps : Params)
    → Params.get_all (units "status") ps ≡ filter_values f
    → set_filter f ps ≡ ps
set_filter_same all ps h = delete_absent (units "status") ps h
set_filter_same pending_approval ps h = set_only (units "status") _ ps h
set_filter_same active ps h = set_only (units "status") _ ps h
set_filter_same failing ps h = set_only (units "status") _ ps h
set_filter_same planning ps h = set_only (units "status") _ ps h
set_filter_same applying ps h = set_only (units "status") _ ps h

-- What the built address says of a name.
built_values :
    (j query : Text) (f : FilterKey) (ps : Params)
    → Params.get_all j (build_search_params ps query f) ≡ (
        if text_eq (units "status") j
        then filter_values f
        else if text_eq (units "q") j
        then query_values query
        else Params.get_all j ps)
unfolding build_search_params
built_values j query f ps =
    ground (arith, get_all-set_filter j f (set_query query ps), get_all-set_query j query ps)

search_of_values :
    (query : Text) (ps : Params)
    → Params.get_all (units "q") ps ≡ query_values query
    → search_of ps ≡ (if truthy (trim query) then query else [])
unfolding search_of
search_of_values query ps h = ground (arith, get-first (units "q") ps)

filter_of_values :
    (f : FilterKey) (ps : Params)
    → Params.get_all (units "status") ps ≡ filter_values f
    → filter_of ps ≡ f
unfolding filter_of parse_filter_key
filter_of_values all ps h = rw (get-first (units "status") ps, h) refl
filter_of_values pending_approval ps h =
    rw (get-first (units "status") ps, h) (parse-filter_text pending_approval)
filter_of_values active ps h = rw (get-first (units "status") ps, h) (parse-filter_text active)
filter_of_values failing ps h = rw (get-first (units "status") ps, h) (parse-filter_text failing)
filter_of_values planning ps h = rw (get-first (units "status") ps, h) (parse-filter_text planning)
filter_of_values applying ps h = rw (get-first (units "status") ps, h) (parse-filter_text applying)

-- The address that the page builds from a query and a filter is read back as that filter and that
-- query, a blank query as the empty one, and every other name keeps its values.
pub build-read :
    (ps : Params) (query : Text) (f : FilterKey)
    → (search_of (build_search_params ps query f) ≡ (if truthy (trim query) then query else []))
      × (filter_of (build_search_params ps query f) ≡ f)
      × ((j : Text)
          → text_eq (units "q") j ≡ false
          → text_eq (units "status") j ≡ false
          → Params.get_all j (build_search_params ps query f) ≡ Params.get_all j ps)
unfolding text_eq
build-read ps query f = (
  search_of_values query _ (built_values (units "q") query f ps),
  filter_of_values f _ (built_values (units "status") query f ps),
  λ j other_q other_status. built_values j query f ps ∙ rw (other_status, other_q) refl,
)

build_again :
    (ps : Params) (query : Text) (f : FilterKey)
    → build_search_params (build_search_params ps query f) query f ≡ build_search_params ps query f
unfolding text_eq
build_again ps query f =
    let next = build_search_params ps query f in
    let same_query = set_query_same query next (built_values (units "q") query f ps) in
    let same_filter = set_filter_same f next (built_values (units "status") query f ps) in
    unfold build_search_params in (ap (set_filter f) same_query ∙ same_filter)

trim-nil : trim [] ≡ []
unfolding trim trim_start
trim-nil = refl

set_query-shown :
    (query : Text) (ps : Params)
    → set_query (if truthy (trim query) then query else []) ps ≡ set_query query ps
set_query-shown query ps = elim (Bool-cases (truthy (trim query))) [
  | inl filled ↦ rw filled (rw filled refl)
  | inr blank ↦ rw blank (rw trim-nil refl)
]

-- The effect that puts the normalized address in place runs again on it and leaves it, so the
-- address is replaced at most once; the page shows the same filter throughout, and the same search,
-- except that a blank search becomes empty.
pub normalized_settles :
    (ps : Params)
    → (normalized (normalized ps) ≡ normalized ps)
      × (filter_of (normalized ps) ≡ filter_of ps)
      × (search_of (normalized ps) ≡ (if truthy (trim (search_of ps)) then search_of ps else []))
unfolding normalized build_search_params
normalized_settles ps =
    let query = search_of ps in
    let f = filter_of ps in
    let next = build_search_params ps query f in
    let (search, filter, _) = build-read ps query f in
    (
      rw (search, filter) (ap (set_filter f) (set_query-shown query next) ∙ build_again ps query f),
      filter,
      search,
    )
