-- ===== src/SpecForm/Groups.antt =====
-- The security groups of web/src/components/EnvironmentSpecForm.tsx: the check boxes, and the text
-- in which the groups are typed.
use infra_orch_studio.Common.{
  ℕ, ◌≡◌, refl, sym, ap, ◌∙◌, Bool, true, false, not, ◌&&◌, ◌||◌, Option, some, List, [], ◌∷◌, ◌++◌,
  Text, units, text_eq, text_eq_iff, truthy, if◌then◌else◌, keep, All, arith, Bool-cases, inl, inr,
}
use mathlib.Core.List.{append-nil, append_assoc}
use infra_orch_studio.Js.Text.{is_space, trim_start, trim, split_from, split_when, join}
use infra_orch_studio.Js.Text.Laws.{IsWhole, All-append, split_when-end, split_when-at}
use infra_orch_studio.Options.{has, or_empty}
use infra_orch_studio.SpecForm.{
  at_separator, join_security_groups, split_security_groups, toggle_security_group,
}

has-keep : (p : Text → Bool) (xs : List Text) (v : Text) → has (keep p xs) v ≡ (p v && has xs v)
has-keep p [] v = ground arith
has-keep p (x ∷ xs) v = elim (Bool-cases (text_eq x v)) [
  | inl same ↦ let e = (text_eq_iff x v).0 same in rw e (ground (arith, has-keep p xs v))
  | inr other ↦ ground (arith, has-keep p xs v)
]

has-append : (xs ys : List Text) (v : Text) → has (xs ++ ys) v ≡ (has xs v || has ys v)
has-append [] ys v = refl
has-append (x ∷ xs) ys v = ground (arith, has-append xs ys v)

-- After a check box is set, its group is listed exactly if the box is checked, and the other groups
-- are listed as before, without an empty one.
pub has-toggle_security_group :
    (current : Option (List Text)) (group : Text) (checked : Bool) (v : Text)
    → has (toggle_security_group current group checked) v
      ≡ (if text_eq v group then checked else truthy v && has (or_empty current) v)
unfolding toggle_security_group
has-toggle_security_group current group true v = ground (
  arith,
  text_eq_iff v group,
  text_eq_iff group v,
  has-keep truthy (or_empty current) v,
  has-keep truthy (or_empty current) group,
  has-append (keep truthy (or_empty current)) (group ∷ []) v,
)
has-toggle_security_group current group false v = ground (
  arith,
  has-keep (λ item. not (text_eq item group)) (keep truthy (or_empty current)) v,
  has-keep truthy (or_empty current) v,
)

-- A group's name as the program stores it: not empty, no spaces around it, no separator in it.
abbrev pub IsGroup : Text → Type 0
IsGroup t = (truthy t ≡ true) × (trim t ≡ t) × IsWhole at_separator t

-- A text behind the groups that adds no group.
abbrev IsSilentTail : Text → Type 0
IsSilentTail tail =
    (t : Text)
    → IsWhole at_separator t
    → split_security_groups (t ++ tail) ≡ keep truthy (trim t ∷ [])

nil-IsSilentTail : IsSilentTail []
unfolding split_security_groups
nil-IsSilentTail t h = rw (append-nil, split_when-end at_separator t h) refl

separator-IsSilentTail : (c : ℕ) → at_separator c ≡ true → IsSilentTail (c ∷ [])
unfolding split_security_groups split_when split_from trim trim_start
separator-IsSilentTail c found t h = rw (split_when-at at_separator t [] c h found) refl

-- What may stand before a group: nothing, or the space behind a comma.
abbrev IsLead : Text → Type 0
IsLead lead = IsWhole at_separator lead × ((t : Text) → trim (lead ++ t) ≡ trim t)

split_groups-at :
    (t rest : Text) (c : ℕ)
    → IsWhole at_separator t
    → at_separator c ≡ true
    → truthy (trim t) ≡ true
    → split_security_groups (t ++ c ∷ rest) ≡ trim t ∷ split_security_groups rest
unfolding split_security_groups
split_groups-at t rest c h found filled =
    rw (split_when-at at_separator t rest c h found, filled) refl

regroup :
    (lead t y tail : Text) (c : ℕ) → (lead ++ (t ++ c ∷ y)) ++ tail ≡ (lead ++ t) ++ c ∷ (y ++ tail)
regroup lead t y tail c = simp append_assoc

trim-space : (t : Text) → trim (b' ' ∷ t) ≡ trim t
unfolding trim trim_start is_space
trim-space t = refl

-- The groups behind a comma, or at the start, are read back.
module _ (tail : Text) (silent : IsSilentTail tail) where
  split-join_from :
      (lead : Text) (t : Text) (ts : List Text)
      → IsLead lead
      → IsGroup t
      → All IsGroup ts
      → split_security_groups ((lead ++ join (units ", ") (t ∷ ts)) ++ tail) ≡ t ∷ ts
  unfolding join
  split-join_from lead t [] (whole, trims) (filled, tight, sound) _ =
      rw
        (
          silent (lead ++ t) (All-append (λ c. at_separator c ≡ false) lead t whole sound),
          trims t,
          tight,
          filled,
        )
        refl
  split-join_from lead t (u ∷ us) (whole, trims) (filled, tight, sound) (next, rest) =
      let joined = join (units ", ") (u ∷ us) in
      let later = split-join_from (b' ' ∷ []) u us ((refl, tt), trim-space) next rest in
      let named : trim (lead ++ t) ≡ t = trims t ∙ tight in
      let here =
        split_groups-at (lead ++ t) ((b' ' ∷ joined) ++ tail) b','
          (All-append (λ c. at_separator c ≡ false) lead t whole sound) refl (rw named filled) in
      rw (regroup lead t (b' ' ∷ joined) tail b',') (here ∙ (rw (named, later) refl))

split-join :
    (tail : Text) (items : List Text)
    → IsSilentTail tail
    → All IsGroup items
    → split_security_groups (join_security_groups (some items) ++ tail) ≡ items
unfolding join_security_groups or_empty join trim trim_start
split-join tail [] silent _ = silent [] tt
split-join tail (t ∷ ts) silent (p, h) = split-join_from tail silent [] t ts (tt, λ s. refl) p h

-- The text that shows groups whose names are not empty, trimmed and without a separator is read back
-- as the same groups.
pub split-join_security_groups :
    (items : List Text)
    → All IsGroup items
    → split_security_groups (join_security_groups (some items)) ≡ items
split-join_security_groups items h =
    ap split_security_groups (sym (append-nil (join_security_groups (some items))))
    ∙ split-join [] items nil-IsSilentTail h

-- A comma or a line break typed behind such groups is lost: the groups stay the same, so the text
-- that is shown next does not have it.
pub typed_separator_lost :
    (items : List Text) (c : ℕ)
    → at_separator c ≡ true
    → All IsGroup items
    → join_security_groups
        (some (split_security_groups (join_security_groups (some items) ++ c ∷ [])))
      ≡ join_security_groups (some items)
typed_separator_lost items c found h =
    ap (λ groups. join_security_groups (some groups))
      (split-join (c ∷ []) items (separator-IsSilentTail c found) h)
