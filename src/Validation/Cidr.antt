-- ===== src/Validation/Cidr.antt =====
-- The IPv4 part of web/src/utils/environmentValidation.ts: parsing of addresses and CIDR blocks,
-- and the containment tests.
pub mod Blocks
pub mod Parsing
pub mod RoundTrip
use infra_orch_studio.Common.{
  ℕ, ◌+◌, ◌-◌, ◌*◌, ◌^◌, Bool, true, false, not, ◌&&◌, ◌||◌, Option, none, some, List, [], ◌∷◌, map,
  Text, truthy, ltb, ◌==◌, if◌then◌else◌, length, any,
}
use infra_orch_studio.Js.Text.{trim, split}
use infra_orch_studio.Js.Number.{Number, of_ℕ, is_integer, lt, whole}
use infra_orch_studio.Js.Number.Parse.{to_number}
use infra_orch_studio.Js.Bits.{unsigned, shift_left, and32, int32_eq}

pub record Cidr : Type 0 where
  pub address : ℕ
  pub bits : ℕ

-- `!Number.isInteger(item) || item < 0 || item > most`
unfoldable pub out_of_range : ℕ → Number → Bool
out_of_range most x = not (is_integer x) || lt x (of_ℕ 0) || lt (of_ℕ most) x

-- The octets as one number; the arithmetic is exact, and `>>> 0` makes it unsigned.
unfoldable pub join_octets : List Number → ℕ
join_octets (a ∷ b ∷ c ∷ d ∷ []) =
    unsigned (whole a * 256 ^ 3 + whole b * 256 ^ 2 + whole c * 256 + whole d)
join_octets _ = 0

unfoldable pub octets_address : List Number → Option ℕ
octets_address octets =
    if not (length octets == 4) || any (out_of_range 255) octets
    then none
    else some (join_octets octets)

unfoldable pub with_bits : ℕ → Option ℕ → Option Cidr
with_bits bits none = none
with_bits bits (some address) = some (record { address = address; bits = bits })

-- `const [addressRaw, bitsRaw] = …`: what follows a second slash is dropped.
unfoldable pub parse_pieces : List Text → Option Cidr
parse_pieces (address_raw ∷ bits_raw ∷ _) =
    if not (truthy address_raw)
    then none
    else let bits = to_number bits_raw in
      if out_of_range 32 bits
      then none
      else with_bits (whole bits) (octets_address (map to_number (split b'.' address_raw)))
parse_pieces _ = none

unfoldable pub parse_ipv4_cidr : Text → Option Cidr
parse_ipv4_cidr value = parse_pieces (split b'/' (trim value))

unfoldable pub parse_ipv4_address : Text → Option ℕ
parse_ipv4_address value = octets_address (map to_number (split b'.' (trim value)))

unfoldable pub mask : ℕ → ℕ
mask bits = if bits == 0 then 0 else unsigned (shift_left 0xffffffff (32 - bits))

unfoldable pub cidr_contains : Cidr → Cidr → Bool
cidr_contains parent child =
    let m = mask parent.bits in
    if ltb child.bits parent.bits
    then false
    else int32_eq (and32 parent.address m) (and32 child.address m)

unfoldable pub cidr_contains_address : Cidr → ℕ → Bool
cidr_contains_address prefix address =
    let m = mask prefix.bits in int32_eq (and32 prefix.address m) (and32 address m)
