-- ===== src/Server/Go.antt =====
-- What internal/validation/environment.go calls of Go's libraries: strings.TrimSpace, and the
-- addresses and prefixes of net/netip, as far as IPv4 goes. A text is taken as its UTF-16 code units.
use infra_orch_studio.Common.{
  ℕ, ◌+◌, ◌-◌, ◌*◌, ◌/◌, ◌^◌, Bool, false, not, ◌&&◌, ◌||◌, Option, none, some, List, [], ◌∷◌, Text,
  truthy, leb, ◌==◌, if◌then◌else◌, all,
}
use mathlib.Core.List.{reverse}
use infra_orch_studio.Js.Text.{split}

-- `unicode.IsSpace`
unfoldable pub is_go_space : ℕ → Bool
is_go_space c =
    (leb 9 c && leb c 13)
    || c == 32
    || c == 0x85
    || c == 0xa0
    || c == 0x1680
    || (leb 0x2000 c && leb c 0x200a)
    || c == 0x2028
    || c == 0x2029
    || c == 0x202f
    || c == 0x205f
    || c == 0x3000

unfoldable pub trim_left : Text → Text
trim_left [] = []
trim_left (c ∷ s) = if is_go_space c then trim_left s else c ∷ s

-- `strings.TrimSpace`
unfoldable pub trim_space : Text → Text
trim_space s = reverse (trim_left (reverse (trim_left s)))

unfoldable pub is_digit : ℕ → Bool
is_digit c = leb b'0' c && leb c b'9'

unfoldable pub decimal_from : ℕ → Text → ℕ
decimal_from acc [] = acc
decimal_from acc (c ∷ s) = decimal_from (acc * 10 + (c - b'0')) s

abbrev leads_zero : Text → Bool
leads_zero (c ∷ _ ∷ _) = c == b'0'
leads_zero _ = false

-- A field of digits, without a leading zero, that is at most `most`.
unfoldable pub parse_field : ℕ → Text → Option ℕ
parse_field most s =
    if truthy s && all is_digit s && not (leads_zero s) && leb (decimal_from 0 s) most
    then some (decimal_from 0 s)
    else none

-- An address of IPv4, as `netip.ParseAddr` reads it.
abbrev pub join_fields : Option ℕ → Option ℕ → Option ℕ → Option ℕ → Option ℕ
join_fields (some a) (some b) (some c) (some d) = some (a * 256 ^ 3 + b * 256 ^ 2 + c * 256 + d)
join_fields _ _ _ _ = none

abbrev pub fields_address : List Text → Option ℕ
fields_address (a ∷ b ∷ c ∷ d ∷ []) =
    join_fields (parse_field 255 a) (parse_field 255 b) (parse_field 255 c) (parse_field 255 d)
fields_address _ = none

unfoldable pub parse_addr4 : Text → Option ℕ
parse_addr4 s = fields_address (split b'.' s)

pub record Prefix : Type 0 where
  pub addr : ℕ
  pub bits : ℕ

abbrev pub with_length : Option ℕ → Option ℕ → Option Prefix
with_length (some a) (some b) = some (record { addr = a; bits = b })
with_length _ _ = none

abbrev pub pieces_prefix : List Text → Option Prefix
pieces_prefix (a ∷ b ∷ []) = with_length (parse_addr4 a) (parse_field 32 b)
pieces_prefix _ = none

-- A block of IPv4, as `netip.ParsePrefix` reads it.
unfoldable pub parse_prefix4 : Text → Option Prefix
parse_prefix4 s = pieces_prefix (split b'/' s)

-- `prefix.Masked()`
unfoldable pub masked : Prefix → Prefix
masked p = record p { addr = p.addr / 2 ^ (32 - p.bits) * 2 ^ (32 - p.bits) }

-- `prefix.Contains(addr)`
unfoldable pub contains : Prefix → ℕ → Bool
contains p x = x / 2 ^ (32 - p.bits) == p.addr / 2 ^ (32 - p.bits)
