-- ===== src/Js/Text.antt =====
-- The methods of `String.prototype` that the web client calls, over UTF-16 code units.
pub mod Laws
use infra_orch_studio.Common.{
  ℕ, zero, suc, ◌+◌, ◌-◌, Bool, true, false, ◌&&◌, ◌||◌, List, [], ◌∷◌, ◌++◌, Text, leb, ◌==◌,
  if◌then◌else◌, length, drop, take,
}
use mathlib.Core.List.{reverse}

-- WhiteSpace and LineTerminator of ECMAScript.
unfoldable pub is_space : ℕ → Bool
is_space c =
    (leb 9 c && leb c 13)
    || c == 32
    || c == 0xa0
    || c == 0x1680
    || (leb 0x2000 c && leb c 0x200a)
    || c == 0x2028
    || c == 0x2029
    || c == 0x202f
    || c == 0x205f
    || c == 0x3000
    || c == 0xfeff

unfoldable pub trim_start : Text → Text
trim_start [] = []
trim_start (c ∷ s) = if is_space c then trim_start s else c ∷ s

unfoldable pub trim : Text → Text
trim s = reverse (trim_start (reverse (trim_start s)))

-- `s.split(…)` at the units that a test selects: one piece more than there are such units.
unfoldable pub split_from : (ℕ → Bool) → Text → Text → List Text
split_from at_unit piece [] = reverse piece ∷ []
split_from at_unit piece (c ∷ s) =
    let next = split_from at_unit [] s in
    let longer = split_from at_unit (c ∷ piece) s in
    if at_unit c then reverse piece ∷ next else longer

unfoldable pub split_when : (ℕ → Bool) → Text → List Text
split_when at_unit s = split_from at_unit [] s

-- `s.split(sep)` for a separator of one unit.
unfoldable pub split : ℕ → Text → List Text
split sep s = split_when (λ c. c == sep) s

unfoldable pub starts_with : Text → Text → Bool
starts_with [] s = true
starts_with (p ∷ ps) [] = false
starts_with (p ∷ ps) (c ∷ s) = p == c && starts_with ps s

unfoldable pub ends_with : Text → Text → Bool
unfolding starts_with
ends_with suffix s = starts_with (reverse suffix) (reverse s)

unfoldable pub includes : Text → Text → Bool
unfolding starts_with
includes part [] = starts_with part []
includes part (c ∷ s) = starts_with part (c ∷ s) || includes part s

-- `items.join(sep)`.
unfoldable pub join : Text → List Text → Text
join sep [] = []
join sep (s ∷ []) = s
join sep (s ∷ t ∷ ts) = s ++ (sep ++ join sep (t ∷ ts))

-- `s.toLowerCase()` on ASCII letters; other letters are left as they are.
unfoldable pub to_lower : Text → Text
to_lower [] = []
to_lower (c ∷ s) = (if leb b'A' c && leb c b'Z' then c + 32 else c) ∷ to_lower s
