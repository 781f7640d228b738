-- ===== src/Js/Bits.antt =====
-- The bitwise operators of JavaScript on 32-bit patterns, as arithmetic.
use Prim.Native.Nat.{bit_and, min, digits, bit_and-bitwise}
use native.Mathlib.Nat.{
  pow-suc, pow-succ', le_refl, one-le-pow, add-zero, add-suc, mul-one, div-div-eq-div-mul,
}
use infra_orch_studio.Common.{
  ℕ, zero, suc, ◌+◌, ◌-◌, ◌*◌, ◌/◌, ◌%◌, ◌^◌, ◌≤◌, ◌<◌, ◌≡◌, refl, Bool, true, false, ltb, ◌==◌,
  if◌then◌else◌, arith,
}

-- The int32 that a pattern of 32 bits stands for, the value of every bitwise operator.
pub data Int32 : Type 0 where
  pos : ℕ → Int32
  negsuc : ℕ → Int32

abbrev pub signed : ℕ → Int32
signed w = if ltb w (2 ^ 31) then pos w else negsuc (2 ^ 32 - w - 1)

-- `===` of two int32 values.
abbrev pub int32_eq : Int32 → Int32 → Bool
int32_eq (pos a) (pos b) = a == b
int32_eq (pos a) (negsuc b) = false
int32_eq (negsuc a) (pos b) = false
int32_eq (negsuc a) (negsuc b) = a == b

-- `x >>> 0`, `x << k` and `a & b`; the first gives a pattern as a number, the others an int32.
abbrev pub unsigned : ℕ → ℕ
unsigned x = x % 2 ^ 32

abbrev pub shift_left : ℕ → ℕ → ℕ
shift_left x k = x * 2 ^ (k % 32) % 2 ^ 32

abbrev pub and32 : ℕ → ℕ → Int32
and32 a b = signed (bit_and a b)

pub signed_injective :
    (a b : ℕ) → a < 2 ^ 32 → b < 2 ^ 32 → int32_eq (signed a) (signed b) ≡ true → a ≡ b
signed_injective a b p q h = ground arith

pub signed_refl : (a : ℕ) → int32_eq (signed a) (signed a) ≡ true
signed_refl a = ground arith

-- `&` by its lowest bit.
module _ (z : ℕ → ℕ) (f : ℕ → ℕ → ℕ) where
  enough_digits : (n m a b : ℕ) → a ≤ n → a ≤ m → digits z f n a b ≡ digits z f m a b
  enough_digits zero zero a b p q = refl
  enough_digits zero (suc m) zero b p q = refl
  enough_digits zero (suc m) (suc a) b p q = absurd (omega arith)
  enough_digits (suc n) zero zero b p q = refl
  enough_digits (suc n) zero (suc a) b p q = absurd (omega arith)
  enough_digits (suc n) (suc m) zero b p q = refl
  enough_digits (suc n) (suc m) (suc a) b p q =
      rw (enough_digits n m (suc a / 2) (b / 2) (omega arith) (omega arith))

pub bit_and-low_bit : (a b : ℕ) → bit_and a b ≡ bit_and (a / 2) (b / 2) * 2 + min (a % 2) (b % 2)
bit_and-low_bit zero b = simp bit_and-bitwise (omega arith)
bit_and-low_bit (suc a) b = omega (
  arith,
  bit_and-bitwise (suc a) b,
  bit_and-bitwise (suc a / 2) (b / 2),
  enough_digits (λ y. 0) min a (suc a / 2) (suc a / 2) (b / 2) (omega arith) (le_refl _),
)

-- The pattern of `width` ones with `k` zeros behind it.
abbrev pub ones : ℕ → ℕ → ℕ
ones width k = (2 ^ width - 1) * 2 ^ k

bit_and-low_ones : (width a : ℕ) → a < 2 ^ width → bit_and a (2 ^ width - 1) ≡ a
bit_and-low_ones zero zero h = refl
bit_and-low_ones zero (suc a) h = absurd (omega arith)
bit_and-low_ones (suc n) a h = ground (
  arith,
  bit_and-low_bit a (2 ^ suc n - 1),
  pow-suc 2 n,
  one-le-pow n 2,
  bit_and-low_ones n (a / 2) (omega (arith, pow-suc 2 n)),
)

bit_and-double : (a m : ℕ) → bit_and a (m * 2) ≡ bit_and (a / 2) m * 2
bit_and-double a m =
    let halved : m * 2 / 2 ≡ m = omega arith in rw (bit_and-low_bit a (m * 2), halved) (omega arith)

ones-suc : (width k : ℕ) → ones width (suc k) ≡ ones width k * 2
ones-suc width k = rw (pow-suc 2 k) (omega arith)

-- Masking by ones above bit `k` clears the `k` low bits.
pub bit_and-ones :
    (k width a : ℕ) → a < 2 ^ (width + k) → bit_and a (ones width k) ≡ a / 2 ^ k * 2 ^ k
bit_and-ones zero width a h =
    rw (mul-one, bit_and-low_ones width a (rw add-zero at h)) (omega arith)
bit_and-ones (suc k) width a h =
    let fits : a / 2 < 2 ^ (width + k) =
      omega (arith, (rw (add-suc, pow-suc 2 (width + k)) at h)) in
    rw
      (
        ones-suc width k,
        bit_and-double a (ones width k),
        bit_and-ones k width (a / 2) fits,
        div-div-eq-div-mul a 2 (2 ^ k),
        pow-succ' 2 k,
      )
      (omega arith)
