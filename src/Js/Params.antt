-- ===== src/Js/Params.antt =====
-- `URLSearchParams` of the browser, as the web client uses it: a list of names and values, in which a
-- name may occur several times.
pub mod Laws
use infra_orch_studio.Common.{Bool, Option, none, some, List, [], ◌∷◌, Text, text_eq, if◌then◌else◌}

abbrev pub Params : Type 0
Params = List (Text × Text)

-- The first value of a name.
unfoldable pub get : Text → Params → Option Text
get name [] = none
get name ((n, v) ∷ ps) = if text_eq n name then some v else get name ps

-- `getAll`
unfoldable pub get_all : Text → Params → List Text
get_all name [] = []
get_all name ((n, v) ∷ ps) = let rest = get_all name ps in if text_eq n name then v ∷ rest else rest

unfoldable pub delete : Text → Params → Params
delete name [] = []
delete name ((n, v) ∷ ps) =
    let rest = delete name ps in if text_eq n name then rest else (n, v) ∷ rest

-- The first entry of the name takes the value, and the others are removed.
unfoldable pub set : Text → Text → Params → Params
unfolding delete
set name value [] = (name, value) ∷ []
set name value ((n, v) ∷ ps) =
    if text_eq n name then (name, value) ∷ delete name ps else (n, v) ∷ set name value ps
