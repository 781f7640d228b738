-- ===== src/Js/Sort.antt =====
-- `Array.prototype.sort` with a comparator that puts greater keys first: stable, so that items with
-- the same key keep their order.
use infra_orch_studio.Common.{
  ℕ, ◌≤◌, List, [], ◌∷◌, leb, if◌then◌else◌, All, arith, Bool-cases, inl, inr,
}
use mathlib.Core.List.{Perm}
use mathlib.Core.List.Perm

module _ {ℓ} {A : Type ℓ} (key : A → ℕ) where
  unfoldable pub insert : A → List A → List A
  insert x [] = x ∷ []
  insert x (y ∷ ys) =
      let rest = insert x ys in if leb (key y) (key x) then x ∷ (y ∷ ys) else y ∷ rest

  unfoldable pub sort_descending : List A → List A
  unfolding insert
  sort_descending [] = []
  sort_descending (x ∷ xs) = insert x (sort_descending xs)

  -- No item has a greater key than one before it.
  abbrev pub IsDescending : List A → Type 0
  IsDescending [] = Unit
  IsDescending (x ∷ xs) = All (λ y. key y ≤ key x) xs × IsDescending xs

  All-le :
      (x y : A) (ys : List A)
      → key x ≤ key y
      → All (λ z. key z ≤ key x) ys
      → All (λ z. key z ≤ key y) ys
  All-le x y [] h a = tt
  All-le x y (z ∷ zs) h a = (omega (arith, h, a.0), All-le x y zs h a.1)

  All-insert :
      (y x : A) (xs : List A)
      → key x ≤ key y
      → All (λ z. key z ≤ key y) xs
      → All (λ z. key z ≤ key y) (insert x xs)
  unfolding insert
  All-insert y x [] h a = (h, tt)
  All-insert y x (z ∷ zs) h a = elim (Bool-cases (leb (key z) (key x))) [
    | inl before ↦ rw before (h, a)
    | inr after ↦ rw after (a.0, All-insert y x zs h a.1)
  ]

  insert-IsDescending : (x : A) (xs : List A) → IsDescending xs → IsDescending (insert x xs)
  unfolding insert
  insert-IsDescending x [] h = (tt, tt)
  insert-IsDescending x (y ∷ ys) h = elim (Bool-cases (leb (key y) (key x))) [
    | inl before ↦ rw before ((ground arith, All-le y x ys (ground arith) h.0), h)
    | inr after ↦ rw after (All-insert y x ys (ground arith) h.0, insert-IsDescending x ys h.1)
  ]

  insert-Perm : (x : A) (xs : List A) → Perm (insert x xs) (x ∷ xs)
  unfolding insert
  insert-Perm x [] = Perm.refl (x ∷ [])
  insert-Perm x (y ∷ ys) = elim (Bool-cases (leb (key y) (key x))) [
    | inl before ↦ rw before (Perm.refl (x ∷ (y ∷ ys)))
    | inr after ↦ rw after (Perm.trans (Perm.cons y (insert-Perm x ys)) (Perm.swap x y ys))
  ]

  pub sort_descending-IsDescending : (xs : List A) → IsDescending (sort_descending xs)
  unfolding sort_descending
  sort_descending-IsDescending [] = tt
  sort_descending-IsDescending (x ∷ xs) =
      insert-IsDescending x (sort_descending xs) (sort_descending-IsDescending xs)

  pub sort_descending-Perm : (xs : List A) → Perm (sort_descending xs) xs
  unfolding sort_descending
  sort_descending-Perm [] = Perm.refl []
  sort_descending-Perm (x ∷ xs) =
      Perm.trans (insert-Perm x (sort_descending xs)) (Perm.cons x (sort_descending-Perm xs))
