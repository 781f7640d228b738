-- ===== src/Common/Powers.antt =====
-- Powers of two, and division by them.
use native.Mathlib.Nat.{
  pow-suc, one-le-pow, add-zero, add-suc, mul-one, div-div-eq-div-mul, div-lt_iff_lt-mul,
  add-mul-div_right, div-eq_of_lt-le, mul-le-mul_right,
}
use Prim.Native.Nat.{ℕ, zero, suc, ◌+◌, ◌-◌, ◌*◌, ◌/◌, ◌^◌, ◌≤◌, ◌<◌}
use mathlib.Core.Path.{◌≡◌, ap, subst, ◌∙◌}
use native.Mathlib.Omega.{arith}

pub pow-add : (a b : ℕ) → 2 ^ (a + b) ≡ 2 ^ a * 2 ^ b
pow-add a zero = rw (add-zero, mul-one)
pow-add a (suc b) = rw (add-suc, pow-suc 2 (a + b), pow-suc 2 b, pow-add a b) (omega arith)

pub pow-pos : (k : ℕ) → 1 ≤ 2 ^ k
pow-pos k = one-le-pow k 2 (omega arith)

-- Numbers that agree above bit `k` agree above every higher bit.
pub div-eq_of_coarser : (k j x y : ℕ) → k ≤ j → x / 2 ^ k ≡ y / 2 ^ k → x / 2 ^ j ≡ y / 2 ^ j
div-eq_of_coarser k j x y h e =
    let split : j ≡ k + (j - k) = omega arith in
    rw (split, pow-add k (j - k), ← div-div-eq-div-mul, ← div-div-eq-div-mul, e)

-- The block of size 2 ^ j around `a` ends within the range that `a` lies in.
pub block_fits : (j b a : ℕ) → a < 2 ^ (b + j) → a / 2 ^ j * 2 ^ j + 2 ^ j ≤ 2 ^ (b + j)
block_fits j b a h =
    let inside : a < 2 ^ b * 2 ^ j = subst (λ (t : ℕ). a < t) (pow-add b j) h in
    let below : a / 2 ^ j + 1 ≤ 2 ^ b = omega (arith, (div-lt_iff_lt-mul (pow-pos j)).1 inside) in
    rw (pow-add b j) (omega (arith, mul-le-mul_right (2 ^ j) below))

pub div-offset : (j q r : ℕ) → r < 2 ^ j → (q * 2 ^ j + r) / 2 ^ j ≡ q
div-offset j q r h = div-eq_of_lt-le (2 ^ j) (omega arith) (omega arith)

-- A finer grid tells a multiple of its step from the next one.
pub div-next : (k x : ℕ) → (x + 2 ^ k) / 2 ^ k ≡ x / 2 ^ k + 1
div-next k x = ap (λ (t : ℕ). (x + t) / 2 ^ k) (omega arith) ∙ add-mul-div_right x 1 (pow-pos k)

pub pow-lt-pow : (k j : ℕ) → k < j → 2 ^ k < 2 ^ j
pow-lt-pow k j h =
    let split : j ≡ k + suc (j - suc k) = omega arith in
    rw (split, pow-add k (suc (j - suc k)), pow-suc 2 (j - suc k))
      (grind (arith, pow-pos k, pow-pos (j - suc k)))
