-- ===== src/Server/Validation/Trim.antt =====
-- The trimming of the two sides: what is blank for the browser, and what for Go.
use infra_orch_studio.Common.{
  ℕ, ◌≡◌, ◌≢◌, refl, sym, ◌∙◌, Bool, true, false, not, ◌||◌, [], ◌∷◌, ◌++◌, Text, truthy, any, all,
  ◌==◌, All, arith,
}
use mathlib.Core.List.{reverse, reverse-cons, reverse-reverse}
use infra_orch_studio.Js.Text.{is_space, trim_start, trim}
use infra_orch_studio.Js.Text.Laws.{All-reverse}
use infra_orch_studio.Server.Go.{is_go_space, trim_left, trim_space}

-- A unit that a test of spaces lets through.
abbrev pub has_ink : (ℕ → Bool) → Text → Bool
has_ink space s = any (λ c. not (space c)) s

module _ (space : ℕ → Bool) where
  has_ink-append : (s t : Text) → has_ink space (s ++ t) ≡ (has_ink space s || has_ink space t)
  has_ink-append [] t = refl
  has_ink-append (c ∷ s) t = ground (arith, has_ink-append s t)

  has_ink-reverse : (s : Text) → has_ink space (reverse s) ≡ has_ink space s
  has_ink-reverse [] = refl
  has_ink-reverse (c ∷ s) =
      rw (reverse-cons c s) (ground (arith, has_ink-append (reverse s) (c ∷ []), has_ink-reverse s))

truthy-append_one : (s : Text) (c : ℕ) → truthy (s ++ (c ∷ [])) ≡ true
truthy-append_one [] c = refl
truthy-append_one (d ∷ s) c = refl

truthy-reverse : (s : Text) → truthy (reverse s) ≡ truthy s
truthy-reverse [] = refl
truthy-reverse (c ∷ s) = rw (reverse-cons c s) (truthy-append_one (reverse s) c)

truthy-trim_start : (s : Text) → truthy (trim_start s) ≡ has_ink is_space s
unfolding trim_start
truthy-trim_start [] = refl
truthy-trim_start (c ∷ s) = ground (arith, truthy-trim_start s)

has_ink-trim_start : (s : Text) → has_ink is_space (trim_start s) ≡ has_ink is_space s
unfolding trim_start
has_ink-trim_start [] = refl
has_ink-trim_start (c ∷ s) = ground (arith, has_ink-trim_start s)

truthy-trim_left : (s : Text) → truthy (trim_left s) ≡ has_ink is_go_space s
unfolding trim_left
truthy-trim_left [] = refl
truthy-trim_left (c ∷ s) = ground (arith, truthy-trim_left s)

has_ink-trim_left : (s : Text) → has_ink is_go_space (trim_left s) ≡ has_ink is_go_space s
unfolding trim_left
has_ink-trim_left [] = refl
has_ink-trim_left (c ∷ s) = ground (arith, has_ink-trim_left s)

truthy-trim : (s : Text) → truthy (trim s) ≡ has_ink is_space s
unfolding trim
truthy-trim s =
    truthy-reverse _
    ∙ truthy-trim_start _
    ∙ has_ink-reverse is_space (trim_start s)
    ∙ has_ink-trim_start s

pub truthy-trim_space : (s : Text) → truthy (trim_space s) ≡ has_ink is_go_space s
unfolding trim_space
truthy-trim_space s =
    truthy-reverse _
    ∙ truthy-trim_left _
    ∙ has_ink-reverse is_go_space (trim_left s)
    ∙ has_ink-trim_left s

has_ink-trim_space : (s : Text) → has_ink is_go_space (trim_space s) ≡ has_ink is_go_space s
unfolding trim_space
has_ink-trim_space s =
    has_ink-reverse is_go_space (trim_left (reverse (trim_left s)))
    ∙ has_ink-trim_left (reverse (trim_left s))
    ∙ has_ink-reverse is_go_space (trim_left s)
    ∙ has_ink-trim_left s

-- What is trimmed is blank when the text is.
pub truthy-trim_space_twice :
    (s : Text) → truthy (trim_space (trim_space s)) ≡ truthy (trim_space s)
truthy-trim_space_twice s =
    truthy-trim_space (trim_space s) ∙ has_ink-trim_space s ∙ sym (truthy-trim_space s)

-- A text without U+0085, which is a space for Go only.
abbrev pub IsPortable : Text → Type 0
IsPortable s = All (λ c. c ≢ 0x85) s

go_space_is_space : (c : ℕ) → c ≢ 0x85 → is_go_space c ≡ true → is_space c ≡ true
unfolding is_go_space is_space
go_space_is_space c h e = ground arith

has_ink-IsPortable :
    (s : Text) → IsPortable s → has_ink is_space s ≡ true → has_ink is_go_space s ≡ true
has_ink-IsPortable [] p h = h
has_ink-IsPortable (c ∷ s) p h = ground (arith, has_ink-IsPortable s p.1, go_space_is_space c p.0)

-- A text without U+0085 that is not blank for the browser is not blank for Go.
pub filled-IsPortable :
    (s : Text) → IsPortable s → truthy (trim s) ≡ true → truthy (trim_space s) ≡ true
filled-IsPortable s p h = truthy-trim_space s ∙ has_ink-IsPortable s p (sym (truthy-trim s) ∙ h)

-- A text without spaces is left as it is.
trim_left-tight : (s : Text) → All (λ c. is_go_space c ≡ false) s → trim_left s ≡ s
unfolding trim_left
trim_left-tight [] h = refl
trim_left-tight (c ∷ s) h = rw h.0 refl

pub trim_space-tight : (s : Text) → All (λ c. is_go_space c ≡ false) s → trim_space s ≡ s
unfolding trim_space
trim_space-tight s h =
    rw (trim_left-tight s h, trim_left-tight (reverse s) (All-reverse _ s h)) (reverse-reverse s)

-- The same as a test.
pub IsPortable-all : (s : Text) → all (λ c. not (c == 0x85)) s ≡ true → IsPortable s
IsPortable-all [] h = tt
IsPortable-all (c ∷ s) h = (ground arith, IsPortable-all s (ground arith))
