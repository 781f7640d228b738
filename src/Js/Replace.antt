-- ===== src/Js/Replace.antt =====
-- `String.prototype.replace` with texts, and with a phrase as a pattern of the flags `gi`. The
-- replacements of the web client have no `$`.
use infra_orch_studio.Common.{ℕ, zero, suc, ◌-◌, [], ◌∷◌, ◌++◌, Text, if◌then◌else◌, length, drop}
use infra_orch_studio.Js.Text.{starts_with, to_lower}

-- The first occurrence of a text.
unfoldable pub replace_first : (from to s : Text) → Text
replace_first from to [] = if starts_with from [] then to else []
replace_first from to (c ∷ s) =
    let rest = replace_first from to s in
    if starts_with from (c ∷ s) then to ++ drop (length from) (c ∷ s) else c ∷ rest

-- Every occurrence of a phrase, in letters of either case: `skip` units belong to an occurrence that
-- was replaced.
unfoldable pub replace_phrase : (skip : ℕ) → (phrase to s : Text) → Text
replace_phrase skip phrase to [] = []
replace_phrase (suc skip) phrase to (c ∷ s) = replace_phrase skip phrase to s
replace_phrase zero phrase to (c ∷ s) =
    let inside = replace_phrase (length phrase - 1) phrase to s in
    let rest = replace_phrase zero phrase to s in
    if starts_with (to_lower phrase) (to_lower (c ∷ s)) then to ++ inside else c ∷ rest
