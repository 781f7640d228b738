-- ===== src/Js/Params/Laws.antt =====
-- What a name has after the operations of `URLSearchParams`.
use infra_orch_studio.Common.{
  ◌≡◌, refl, Option, none, some, List, [], ◌∷◌, Text, text_eq, text_eq_iff, if◌then◌else◌, arith,
}
use infra_orch_studio.Js.Params.{Params, get, get_all, delete, set}

-- The first of several values.
abbrev pub first : List Text → Option Text
first [] = none
first (v ∷ vs) = some v

pub get-first : (name : Text) (ps : Params) → get name ps ≡ first (get_all name ps)
unfolding get get_all
get-first name [] = refl
get-first name ((n, v) ∷ ps) = ground (arith, get-first name ps)

pub get_all-delete :
    (k j : Text) (ps : Params)
    → get_all j (delete k ps) ≡ (if text_eq k j then [] else get_all j ps)
unfolding get_all delete
get_all-delete k j [] = ground arith
get_all-delete k j ((n, v) ∷ ps) =
    ground (arith, text_eq_iff k j, text_eq_iff n k, text_eq_iff n j, get_all-delete k j ps)

pub get_all-set :
    (k j v : Text) (ps : Params)
    → get_all j (set k v ps) ≡ (if text_eq k j then v ∷ [] else get_all j ps)
unfolding get_all set
get_all-set k j v [] = ground arith
get_all-set k j v ((n, w) ∷ ps) = ground (
  arith,
  text_eq_iff k j,
  text_eq_iff n k,
  text_eq_iff n j,
  get_all-delete k j ps,
  get_all-set k j v ps,
)

pub delete_absent : (k : Text) (ps : Params) → get_all k ps ≡ [] → delete k ps ≡ ps
unfolding get_all delete
delete_absent k [] h = refl
delete_absent k ((n, v) ∷ ps) h = ground (arith, delete_absent k ps)

pub set_only : (k v : Text) (ps : Params) → get_all k ps ≡ v ∷ [] → set k v ps ≡ ps
unfolding get_all set
set_only k v [] h = ground arith
set_only k v ((n, w) ∷ ps) h = ground (arith, text_eq_iff n k, delete_absent k ps, set_only k v ps)
