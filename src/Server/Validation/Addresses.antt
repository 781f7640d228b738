-- ===== src/Server/Validation/Addresses.antt =====
-- The texts of addresses and blocks, in dotted decimals, as the server reads them.
use infra_orch_studio.Common.{
  ℕ, ◌+◌, ◌-◌, ◌*◌, ◌/◌, ◌%◌, ◌^◌, ◌≤◌, ◌<◌, ◌≡◌, refl, ap, sym, subst, String, ◌∙◌, Bool, true,
  false, Option, none, some, [], ◌∷◌, Text, All, ltb, ◌==◌, ==_iff, all_below, all_below_sound,
  arith, inr,
}
use native.Mathlib.Nat.{div-mul-le_self}
use infra_orch_studio.Common.Powers.{pow-pos, div-offset}
use infra_orch_studio.Js.Text.Laws.{All-append}
use infra_orch_studio.Validation.Cidr.{Cidr, cidr_contains}
use infra_orch_studio.Validation.Cidr.Blocks.{IsCidr, InBlock, cidr_contains_iff}
use infra_orch_studio.Validation.Cidr.RoundTrip.{
  show_number, show_address, show_cidr, All-dotted, IsDecimal, show_number-IsDecimal, four,
  split_octets, octets_of, split-show_cidr,
}
use infra_orch_studio.Server.Go.{
  is_go_space, trim_space, is_digit, decimal_from, parse_field, parse_addr4, Prefix, parse_prefix4,
  masked, contains,
}
use infra_orch_studio.Server.Validation.{parse_ipv4_prefix}
use infra_orch_studio.Server.Validation.Trim.{trim_space-tight}

abbrev is_read : Option ℕ → ℕ → Bool
is_read none n = false
is_read (some m) n = m == n

abbrev reads : ℕ → ℕ → Bool
reads most n = is_read (parse_field most (show_number n)) n

is_read_sound : (o : Option ℕ) (n : ℕ) → is_read o n ≡ true → o ≡ some n
is_read_sound none n h = absurd (ground arith)
is_read_sound (some m) n h = ap some ((==_iff m n).0 h)

field_table : all_below 256 (reads 255) ≡ true
unfolding all_below parse_field is_digit decimal_from
field_table = refl

bits_table : all_below 33 (reads 32) ≡ true
unfolding all_below parse_field is_digit decimal_from
bits_table = refl

read_back : (most n : ℕ) → reads most n ≡ true → parse_field most (show_number n) ≡ some n
read_back most n h = is_read_sound (parse_field most (show_number n)) n h

field_lem : (n : ℕ) → n < 256 → parse_field 255 (show_number n) ≡ some n
field_lem n h = read_back 255 n (all_below_sound 256 (reads 255) n field_table h)

bits_lem : (n : ℕ) → n ≤ 32 → parse_field 32 (show_number n) ≡ some n
bits_lem n h = read_back 32 n (all_below_sound 33 (reads 32) n bits_table (omega arith))

parse_addr4-four :
    (p q r s : ℕ) (hp : p < 256) (hq : q < 256) (hr : r < 256) (hs : s < 256)
    → parse_addr4 (four p q r s hp hq hr hs) ≡ some (p * 256 ^ 3 + q * 256 ^ 2 + r * 256 + s)
unfolding parse_addr4
parse_addr4-four p q r s hp hq hr hs =
    rw
      (
        split_octets p q r s hp hq hr hs,
        field_lem p hp,
        field_lem q hq,
        field_lem r hr,
        field_lem s hs,
      )
      refl

whole_address :
    (a : ℕ)
    → a < 2 ^ 32
    → a / 256 ^ 3 * 256 ^ 3 + a / 256 ^ 2 % 256 * 256 ^ 2 + a / 256 % 256 * 256 + a % 256 ≡ a
whole_address a h = omega arith

-- Every 32-bit address in dotted decimals is read by the server as that address.
pub parse_addr4-show_address : (a : ℕ) → a < 2 ^ 32 → parse_addr4 (show_address a) ≡ some a
unfolding show_address four
parse_addr4-show_address a h =
    parse_addr4-four (a / 256 ^ 3) (a / 256 ^ 2 % 256) (a / 256 % 256) (a % 256) (octets_of a h)
      (omega arith) (omega arith) (omega arith)
    ∙ ap some (whole_address a h)

-- A prefix of the server for a block of the client.
abbrev pub prefix_of : Cidr → Prefix
prefix_of c = record { addr = c.address; bits = c.bits }

parse_prefix4-show_cidr : (c : Cidr) → IsCidr c → parse_prefix4 (show_cidr c) ≡ some (prefix_of c)
unfolding parse_prefix4
parse_prefix4-show_cidr c v =
    rw
      (
        split-show_cidr c v,
        parse_addr4-show_address c.address v.address_fits,
        bits_lem c.bits v.bits_fit,
      )
      refl

-- Digits, dots and slashes.
abbrev IsPlainUnit : ℕ → Type 0
IsPlainUnit c = (b'.' ≤ c) × (c ≤ b'9')

plain-not-space : (c : ℕ) → IsPlainUnit c → is_go_space c ≡ false
unfolding is_go_space
plain-not-space c h = ground arith

plain_text : (s : Text) → All IsPlainUnit s → All (λ c. is_go_space c ≡ false) s
plain_text [] h = tt
plain_text (c ∷ s) h = (plain-not-space c h.0, plain_text s h.1)

decimal_plain : (s : Text) → IsDecimal s → All IsPlainUnit s
decimal_plain [] h = tt
decimal_plain (c ∷ s) ((low, high), h) = ((omega arith, high), decimal_plain s h)

address_plain : (a : ℕ) → a < 2 ^ 32 → All IsPlainUnit (show_address a)
unfolding show_address
address_plain a h =
    let plain =
      λ (n : ℕ) (fits : n < 256). decimal_plain (show_number n) (show_number-IsDecimal n fits) in
    All-dotted IsPlainUnit _ _ _ _ (omega arith, omega arith) (plain (a / 256 ^ 3) (octets_of a h))
      (plain (a / 256 ^ 2 % 256) (omega arith)) (plain (a / 256 % 256) (omega arith))
      (plain (a % 256) (omega arith))

pub trim_space-show_address : (a : ℕ) → a < 2 ^ 32 → trim_space (show_address a) ≡ show_address a
trim_space-show_address a h = trim_space-tight (show_address a) (plain_text _ (address_plain a h))

pub trim_space-show_cidr : (c : Cidr) → IsCidr c → trim_space (show_cidr c) ≡ show_cidr c
unfolding show_cidr
trim_space-show_cidr c v =
    let b = show_number c.bits in
    let decimal = show_number-IsDecimal c.bits (omega (arith, v.bits_fit)) in
    trim_space-tight (show_cidr c) (
      plain_text _ (
        All-append IsPlainUnit (show_address c.address) (b'/' ∷ b)
          (address_plain c.address v.address_fits)
          ((omega arith, omega arith), decimal_plain b decimal)))

-- A block in dotted decimals is read by the server as the block from its first address on.
pub parse_ipv4_prefix-show_cidr :
    (c : Cidr) (field : String)
    → IsCidr c
    → parse_ipv4_prefix (show_cidr c) field ≡ inr (masked (prefix_of c))
unfolding parse_ipv4_prefix
parse_ipv4_prefix-show_cidr c field v =
    rw (trim_space-show_cidr c v, parse_prefix4-show_cidr c v) refl

first_address : (k x : ℕ) → (x / 2 ^ k * 2 ^ k) / 2 ^ k ≡ x / 2 ^ k
first_address k x =
    subst (λ n. n / 2 ^ k ≡ x / 2 ^ k) (omega arith) (div-offset k (x / 2 ^ k) 0 (pow-pos k))

-- An address of a block of the client lies in the prefix of the server.
pub contains-InBlock : (c : Cidr) (x : ℕ) → InBlock c x → contains (masked (prefix_of c)) x ≡ true
unfolding contains masked
contains-InBlock c x h = (==_iff _ _).1 (h ∙ sym (first_address (32 - c.bits) c.address))

finer :
    (network subnet : Cidr)
    → cidr_contains network subnet ≡ true
    → ltb subnet.bits network.bits ≡ false
unfolding cidr_contains
finer network subnet h = ground arith

-- Inclusion of the blocks is what the server tests.
pub subnet_inside :
    (network subnet : Cidr)
    → IsCidr network
    → IsCidr subnet
    → ((x : ℕ) → x < 2 ^ 32 → InBlock subnet x → InBlock network x)
    → (contains (masked (prefix_of network)) (masked (prefix_of subnet)).addr ≡ true)
      × (ltb (masked (prefix_of subnet)).bits (masked (prefix_of network)).bits ≡ false)
unfolding masked
subnet_inside network subnet n s inside =
    let start = subnet.address / 2 ^ (32 - subnet.bits) * 2 ^ (32 - subnet.bits) in
    let below : start < 2 ^ 32 =
      omega (arith, div-mul-le_self subnet.address (2 ^ (32 - subnet.bits)), s.address_fits) in
    (
      contains-InBlock network start
          (inside start below (first_address (32 - subnet.bits) subnet.address)),
      finer network subnet ((cidr_contains_iff network subnet n s).1 inside),
    )
