-- ===== src/Js/Text/Laws.antt =====
-- Splitting and trimming of texts that are free of separators and spaces.
use infra_orch_studio.Common.{
  ℕ, ◌≡◌, ◌≢◌, refl, sym, subst, Bool, true, false, List, [], ◌∷◌, ◌++◌, Text, All, ◌==◌, arith,
}
use mathlib.Core.List.{reverse, reverse-cons, reverse-reverse, append_assoc, append-nil}
use infra_orch_studio.Js.Text.{is_space, trim_start, trim, split_from, split_when, split}

abbrev pub IsFree : ℕ → Text → Type 0
IsFree sep s = All (λ c. c ≢ sep) s

abbrev pub IsTight : Text → Type 0
IsTight s = All (λ c. is_space c ≡ false) s

module _ {A : Type 0} (P : A → Type 0) where
  pub All-append : (xs ys : List A) → All P xs → All P ys → All P (xs ++ ys)
  All-append [] ys _ k = k
  All-append (x ∷ xs) ys (p, h) k = (p, All-append xs ys h k)

  pub All-reverse : (xs : List A) → All P xs → All P (reverse xs)
  All-reverse [] _ = tt
  All-reverse (x ∷ xs) (p, h) =
      subst (All P) (sym (reverse-cons x xs))
        (All-append (reverse xs) (x ∷ []) (All-reverse xs h) (p, tt))

module _ (at_unit : ℕ → Bool) where
  abbrev pub IsWhole : Text → Type 0
  IsWhole s = All (λ c. at_unit c ≡ false) s

  split_from-end :
      (piece s : Text) → IsWhole s → split_from at_unit piece s ≡ (reverse piece ++ s) ∷ []
  unfolding split_from
  split_from-end piece [] _ = rw append-nil
  split_from-end piece (c ∷ s) (p, h) = ground (
    arith,
    split_from-end (c ∷ piece) s h,
    reverse-cons c piece,
    append_assoc (reverse piece) (c ∷ []) s,
  )

  split_from-at :
      (piece s t : Text) (sep : ℕ)
      → IsWhole s
      → at_unit sep ≡ true
      → split_from at_unit piece (s ++ sep ∷ t) ≡ (reverse piece ++ s) ∷ split_when at_unit t
  unfolding split_from split_when
  split_from-at piece [] t sep _ found = ground (arith, append-nil (reverse piece))
  split_from-at piece (c ∷ s) t sep (p, h) found = ground (
    arith,
    split_from-at (c ∷ piece) s t sep h found,
    reverse-cons c piece,
    append_assoc (reverse piece) (c ∷ []) s,
  )

  pub split_when-end : (s : Text) → IsWhole s → split_when at_unit s ≡ s ∷ []
  unfolding split_when
  split_when-end s h = split_from-end [] s h

  pub split_when-at :
      (s t : Text) (sep : ℕ)
      → IsWhole s
      → at_unit sep ≡ true
      → split_when at_unit (s ++ sep ∷ t) ≡ s ∷ split_when at_unit t
  unfolding split_when
  split_when-at s t sep h found = split_from-at [] s t sep h found

IsFree-IsWhole : (sep : ℕ) (s : Text) → IsFree sep s → IsWhole (λ c. c == sep) s
IsFree-IsWhole sep [] _ = tt
IsFree-IsWhole sep (c ∷ s) (p, h) = (ground arith, IsFree-IsWhole sep s h)

pub split-end : (sep : ℕ) (s : Text) → IsFree sep s → split sep s ≡ s ∷ []
unfolding split
split-end sep s h = split_when-end (λ c. c == sep) s (IsFree-IsWhole sep s h)

pub split-sep : (sep : ℕ) (s t : Text) → IsFree sep s → split sep (s ++ sep ∷ t) ≡ s ∷ split sep t
unfolding split
split-sep sep s t h = split_when-at (λ c. c == sep) s t sep (IsFree-IsWhole sep s h) (ground arith)

trim_start-IsTight : (s : Text) → IsTight s → trim_start s ≡ s
unfolding trim_start
trim_start-IsTight [] _ = refl
trim_start-IsTight (c ∷ s) (p, h) = rw p

pub trim-IsTight : (s : Text) → IsTight s → trim s ≡ s
unfolding trim
trim-IsTight s h =
    rw (trim_start-IsTight s h, trim_start-IsTight (reverse s) (All-reverse _ s h))
      (reverse-reverse s)
