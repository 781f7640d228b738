-- ===== src/Js/Number.antt =====
-- The Number type of JavaScript: IEEE 754 doubles, and the conversion of text to a number.
pub mod Parse
use infra_orch_studio.Common.{
  ℕ, zero, suc, arith, ◌<◌, ◌+◌, ◌-◌, ◌*◌, ◌/◌, ◌%◌, ◌^◌, Bool, true, false, not, ◌&&◌, ◌||◌, leb,
  ltb, ◌==◌, if◌then◌else◌,
}

-- A finite double is a whole multiple of 2 ^ -1074, with a sign that -0 has too.
pub data Number : Type 0 where
  nan : Number
  infinite : (negative : Bool) → Number
  finite : (negative : Bool) → (magnitude : ℕ) → Number

-- The number 1 in units of 2 ^ -1074.
unfoldable pub one : ℕ
one = 2 ^ 1074

pub one-pos : 0 < one
unfolding one
one-pos = omega arith

unfoldable pub of_ℕ : ℕ → Number
of_ℕ n = finite false (n * one)

bit_length_from : ℕ → ℕ → ℕ
bit_length_from zero n = 0
bit_length_from (suc f) zero = 0
bit_length_from (suc f) (suc n) = suc (bit_length_from f (suc n / 2))

unfoldable pub bit_length : ℕ → ℕ
unfolding bit_length_from
bit_length n = bit_length_from n n

-- The double next to num / den units, ties to even, with 53 significant bits.
unfoldable pub round : Bool → ℕ → ℕ → Number
unfolding bit_length
round negative num den =
    let step = 2 ^ (bit_length (num / den) - 53) in
    let m = num / (den * step) in
    let twice = 2 * (num % (den * step)) in
    let up = ltb (den * step) twice || (twice == den * step && m % 2 == 1) in
    let magnitude = (if up then m + 1 else m) * step in
    if ltb magnitude (2 ^ 1024 * one) then finite negative magnitude else infinite negative

-- `Number.isFinite`, `Number.isInteger`.
unfoldable pub is_finite : Number → Bool
is_finite (finite _ _) = true
is_finite _ = false

unfoldable pub is_integer : Number → Bool
is_integer (finite negative m) = m % one == 0
is_integer _ = false

-- `a < b`: false when either side is NaN; -0 and 0 are equal.
unfoldable pub lt : Number → Number → Bool
lt nan b = false
lt (infinite s) nan = false
lt (finite s m) nan = false
lt (infinite s) (infinite t) = s && not t
lt (infinite s) (finite t n) = s
lt (finite s m) (infinite t) = not t
lt (finite false m) (finite false n) = ltb m n
lt (finite false m) (finite true n) = false
lt (finite true m) (finite false n) = ltb 0 (m + n)
lt (finite true m) (finite true n) = ltb n m

-- `a >= b`: false when either side is NaN.
unfoldable pub is_nan : Number → Bool
is_nan nan = true
is_nan _ = false

unfoldable pub ge : Number → Number → Bool
ge a b = not (is_nan a) && not (is_nan b) && not (lt a b)

unfoldable pub add : Number → Number → Number
unfolding round
add nan b = nan
add (infinite s) nan = nan
add (finite s m) nan = nan
add (infinite true) (infinite true) = infinite true
add (infinite false) (infinite false) = infinite false
add (infinite true) (infinite false) = nan
add (infinite false) (infinite true) = nan
add (infinite s) (finite t n) = infinite s
add (finite s m) (infinite t) = infinite t
add (finite false m) (finite false n) = round false (m + n) 1
add (finite true m) (finite true n) = round true (m + n) 1
add (finite false m) (finite true n) =
    if leb n m then round false (m - n) 1 else round true (n - m) 1
add (finite true m) (finite false n) =
    if leb m n then round false (n - m) 1 else round true (m - n) 1

-- The whole number that a nonnegative integer is.
unfoldable pub whole : Number → ℕ
whole (finite _ m) = m / one
whole _ = 0
