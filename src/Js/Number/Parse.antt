-- ===== src/Js/Number/Parse.antt =====
-- `Number(text)`: the StringToNumber grammar of ECMAScript.
use infra_orch_studio.Common.{
  ℕ, ◌+◌, ◌-◌, ◌*◌, ◌^◌, Bool, true, false, ◌&&◌, ◌||◌, leb, ltb, ◌==◌, if◌then◌else◌, [], ◌∷◌,
  ◌++◌, Text, units, text_eq, Option, none, some, length,
}
use infra_orch_studio.Js.Text.{is_space, trim_start, trim}
use infra_orch_studio.Js.Number.{Number, nan, infinite, finite, one, round}

-- The value of a digit, in any radix up to 36; 36 for what is no digit.
digit : ℕ → ℕ
digit c =
    if leb b'0' c && leb c b'9'
    then c - b'0'
    else if leb b'a' c && leb c b'z'
    then c - b'a' + 10
    else if leb b'A' c && leb c b'Z'
    then c - b'A' + 10
    else 36

-- The longest run of decimal digits in front, and the rest.
digits : Text → Text × Text
digits [] = ([], [])
digits (c ∷ s) =
    let (run, rest) = digits s in if ltb (digit c) 10 then (c ∷ run, rest) else ([], c ∷ s)

value_from : ℕ → ℕ → Text → ℕ
value_from radix acc [] = acc
value_from radix acc (c ∷ s) = value_from radix (acc * radix + digit c) s

every_digit : ℕ → Text → Bool
every_digit radix [] = true
every_digit radix (c ∷ s) = ltb (digit c) radix && every_digit radix s

-- A literal with a prefix such as 0x: at least one digit of the radix, no sign.
radix_literal : ℕ → Text → Number
radix_literal radix [] = nan
radix_literal radix (c ∷ s) =
    if every_digit radix (c ∷ s) then round false (value_from radix 0 (c ∷ s) * one) 1 else nan

-- An exponent with its sign; `none` where the text is not one.
exponent_digits : Bool → Text → Option (Bool × ℕ)
exponent_digits negative [] = none
exponent_digits negative (d ∷ ds) =
    if every_digit 10 (d ∷ ds) then some (negative, value_from 10 0 (d ∷ ds)) else none

signed_digits : Text → Option (Bool × ℕ)
signed_digits [] = none
signed_digits (c ∷ s) =
    if c == b'-'
    then exponent_digits true s
    else if c == b'+'
    then exponent_digits false s
    else exponent_digits false (c ∷ s)

exponent : Text → Option (Bool × ℕ)
exponent [] = some (false, 0)
exponent (c ∷ s) = if c == b'e' || c == b'E' then signed_digits s else none

-- mantissa * 10 ^ (±e - places)
scaled : Bool → ℕ → ℕ → Option (Bool × ℕ) → Number
scaled negative mantissa places none = nan
scaled negative mantissa places (some (true, e)) =
    round negative (mantissa * one) (10 ^ (places + e))
scaled negative mantissa places (some (false, e)) =
    if leb places e
    then round negative (mantissa * 10 ^ (e - places) * one) 1
    else round negative (mantissa * one) (10 ^ (places - e))

-- What follows the digits before the point: a fraction, an exponent, or nothing.
after_point : Text → Text × Text
after_point [] = ([], [])
after_point (c ∷ s) = if c == b'.' then digits s else ([], c ∷ s)

unsigned_decimal : Bool → Text → Number
unsigned_decimal negative s =
    if text_eq s (units "Infinity")
    then infinite negative
    else let (run, rest) = digits s in
      let (fraction, rest') = after_point rest in
      if length (run ++ fraction) == 0
      then nan
      else scaled negative (value_from 10 0 (run ++ fraction)) (length fraction) (exponent rest')

decimal : Text → Number
decimal [] = finite false 0
decimal (c ∷ s) =
    if c == b'-'
    then unsigned_decimal true s
    else if c == b'+'
    then unsigned_decimal false s
    else unsigned_decimal false (c ∷ s)

literal : Text → Number
literal (zero_digit ∷ p ∷ s) =
    if zero_digit == b'0' && (p == b'x' || p == b'X')
    then radix_literal 16 s
    else if zero_digit == b'0' && (p == b'o' || p == b'O')
    then radix_literal 8 s
    else if zero_digit == b'0' && (p == b'b' || p == b'B')
    then radix_literal 2 s
    else decimal (zero_digit ∷ p ∷ s)
literal s = decimal s

unfoldable pub to_number : Text → Number
unfolding digit digits value_from every_digit radix_literal exponent_digits signed_digits exponent
    scaled after_point unsigned_decimal decimal literal trim trim_start is_space text_eq round one
to_number s = literal (trim s)
