-- ===== src/Validation/Cidr/Parsing.antt =====
-- What the parsers of environmentValidation.ts return, and the texts that they read back.
use infra_orch_studio.Common.{
  ℕ, ◌*◌, ◌^◌, ◌≤◌, ◌<◌, ◌≡◌, true, false, some, List, [], ◌∷◌, map, Text, arith,
}
use native.Mathlib.Nat.{div-le_of_le-mul}
use infra_orch_studio.Js.Text.{trim, split}
use infra_orch_studio.Js.Number.{Number, finite, of_ℕ, one, is_integer, lt, whole}
use infra_orch_studio.Js.Number.Parse.{to_number}
use infra_orch_studio.Validation.Cidr.{
  Cidr, out_of_range, join_octets, octets_address, with_bits, parse_pieces, parse_ipv4_cidr,
  parse_ipv4_address,
}
use infra_orch_studio.Validation.Cidr.Blocks.{IsCidr}

join_octets-lt : (octets : List Number) → join_octets octets < 2 ^ 32
unfolding join_octets
join_octets-lt (a ∷ b ∷ c ∷ d ∷ []) = omega arith
join_octets-lt _ = omega arith

octets_address-lt : (octets : List Number) {x : ℕ} → octets_address octets ≡ some x → x < 2 ^ 32
unfolding octets_address
octets_address-lt octets h = ground (arith, join_octets-lt octets)

-- A number that passes the range test is at most the bound.
whole-le : (most : ℕ) (n : Number) → out_of_range most n ≡ false → whole n ≤ most
unfolding out_of_range whole is_integer lt of_ℕ
whole-le most (finite false m) h =
    let bounded : m ≤ one * most = ground arith in div-le_of_le-mul one bounded
whole-le most (finite true m) h =
    let bounded : m ≤ one * 0 = ground arith in omega (arith, div-le_of_le-mul one bounded)
whole-le most n h = omega arith

parse_pieces-IsCidr : (pieces : List Text) {c : Cidr} → parse_pieces pieces ≡ some c → IsCidr c
unfolding parse_pieces with_bits
parse_pieces-IsCidr (address_raw ∷ bits_raw ∷ rest) {c} h = ground (
  arith,
  whole-le 32 (to_number bits_raw),
  octets_address-lt (map to_number (split b'.' address_raw)) {x = c.address},
)
parse_pieces-IsCidr _ h = cc

-- What the CIDR parser returns has a 32-bit address and at most 32 bits of prefix.
pub parse_ipv4_cidr-IsCidr : (value : Text) {c : Cidr} → parse_ipv4_cidr value ≡ some c → IsCidr c
unfolding parse_ipv4_cidr
parse_ipv4_cidr-IsCidr value h = parse_pieces-IsCidr (split b'/' (trim value)) h

pub parse_ipv4_address-lt : (value : Text) {x : ℕ} → parse_ipv4_address value ≡ some x → x < 2 ^ 32
unfolding parse_ipv4_address
parse_ipv4_address-lt value h = octets_address-lt (map to_number (split b'.' (trim value))) h
