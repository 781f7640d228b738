-- ===== src/Validation/Cidr/RoundTrip.antt =====
-- Addresses and CIDR blocks written in dotted decimal, and read back by the parsers of
-- environmentValidation.ts.
use infra_orch_studio.Common.{
  ℕ, ◌+◌, ◌*◌, ◌/◌, ◌%◌, ◌^◌, ◌≤◌, ◌<◌, ◌≡◌, ◌≢◌, refl, ap, ◌∙◌, Bool, true, false, not, ◌&&◌, some,
  [], ◌∷◌, ◌++◌, map, Text, All, ltb, ◌==◌, all_below, all_below_sound, if◌then◌else◌, arith,
  truthy,
}
use infra_orch_studio.Js.Text.{is_space, split}
use infra_orch_studio.Js.Text.Laws.{IsFree, IsTight, All-append, split-end, split-sep, trim-IsTight}
use infra_orch_studio.Js.Number.{of_ℕ, one, is_integer, lt, whole}
use infra_orch_studio.Js.Number.Parse.{to_number}
use infra_orch_studio.Validation.Cidr.{
  Cidr, out_of_range, join_octets, octets_address, with_bits, parse_pieces, parse_ipv4_cidr,
  parse_ipv4_address,
}
use infra_orch_studio.Validation.Cidr.Blocks.{IsCidr}

-- A number below 1000 in decimal, with no leading zero.
abbrev pub show_number : ℕ → Text
show_number n =
    if ltb n 10
    then (b'0' + n) ∷ []
    else if ltb n 100
    then (b'0' + n / 10) ∷ (b'0' + n % 10) ∷ []
    else (b'0' + n / 100) ∷ (b'0' + n / 10 % 10) ∷ (b'0' + n % 10) ∷ []

-- Four parts with dots between them.
abbrev pub dotted : Text → Text → Text → Text → Text
dotted p q r s = p ++ (b'.' ∷ (q ++ (b'.' ∷ (r ++ (b'.' ∷ s)))))

pub All-dotted :
    (P : ℕ → Type 0) (p q r s : Text)
    → P b'.'
    → All P p
    → All P q
    → All P r
    → All P s
    → All P (dotted p q r s)
All-dotted P p q r s dot hp hq hr hs =
    All-append P p _ hp (dot, All-append P q _ hq (dot, All-append P r _ hr (dot, hs)))

unfoldable pub show_address : ℕ → Text
show_address a =
    dotted (show_number (a / 256 ^ 3)) (show_number (a / 256 ^ 2 % 256))
      (show_number (a / 256 % 256)) (show_number (a % 256))

unfoldable pub show_cidr : Cidr → Text
show_cidr c = show_address c.address ++ b'/' ∷ show_number c.bits

abbrev pub IsDecimal : Text → Type 0
IsDecimal s = All (λ c. (b'0' ≤ c) × (c ≤ b'9')) s

pub show_number-IsDecimal : (n : ℕ) → n < 256 → IsDecimal (show_number n)
show_number-IsDecimal n h = ground arith

digit-not-space : (c : ℕ) → b'0' ≤ c → c ≤ b'9' → is_space c ≡ false
unfolding is_space
digit-not-space c p q = ground arith

IsDecimal-IsFree : (sep : ℕ) (s : Text) → sep < b'0' → IsDecimal s → IsFree sep s
IsDecimal-IsFree sep [] _ _ = tt
IsDecimal-IsFree sep (c ∷ s) h (p, d) = (λ e. omega arith, IsDecimal-IsFree sep s h d)

IsDecimal-IsTight : (s : Text) → IsDecimal s → IsTight s
IsDecimal-IsTight [] _ = tt
IsDecimal-IsTight (c ∷ s) (p, d) = (digit-not-space c p.0 p.1, IsDecimal-IsTight s d)

-- What the conversion of a decimal text has to give: in range, and the number itself.
abbrev reads_back : ℕ → ℕ → Bool
reads_back most n = let x = to_number (show_number n) in not (out_of_range most x) && whole x == n

octet_table : all_below 256 (reads_back 255) ≡ true
unfolding all_below to_number out_of_range is_integer lt of_ℕ whole one
octet_table = refl

bits_table : all_below 33 (reads_back 32) ≡ true
unfolding all_below to_number out_of_range is_integer lt of_ℕ whole one
bits_table = refl

module _ (most n : ℕ) (h : reads_back most n ≡ true) where
  in_range : out_of_range most (to_number (show_number n)) ≡ false
  in_range = ground arith

  whole-show : whole (to_number (show_number n)) ≡ n
  whole-show = ground arith

octet_reads_back : (n : ℕ) → n < 256 → reads_back 255 n ≡ true
octet_reads_back n h = all_below_sound 256 (reads_back 255) n octet_table h

module _ (p q r s : ℕ) (hp : p < 256) (hq : q < 256) (hr : r < 256) (hs : s < 256) where
  unfoldable pub four : Text
  four = dotted (show_number p) (show_number q) (show_number r) (show_number s)

  free : (n : ℕ) → n < 256 → IsFree b'.' (show_number n)
  free n h = IsDecimal-IsFree b'.' (show_number n) (omega arith) (show_number-IsDecimal n h)

  pub split_octets :
      split b'.' four ≡ show_number p ∷ show_number q ∷ show_number r ∷ show_number s ∷ []
  unfolding four
  split_octets =
      rw
        (
          split-sep b'.' (show_number p) _ (free p hp),
          split-sep b'.' (show_number q) _ (free q hq),
          split-sep b'.' (show_number r) _ (free r hr),
          split-end b'.' (show_number s) (free s hs),
        )
        refl

  octets_address-four :
      octets_address (map to_number (split b'.' four))
      ≡ some ((p * 256 ^ 3 + q * 256 ^ 2 + r * 256 + s) % 2 ^ 32)
  unfolding octets_address join_octets
  octets_address-four = rw split_octets (
      ground (
        arith,
        in_range 255 p (octet_reads_back p hp),
        in_range 255 q (octet_reads_back q hq),
        in_range 255 r (octet_reads_back r hr),
        in_range 255 s (octet_reads_back s hs),
        whole-show 255 p (octet_reads_back p hp),
        whole-show 255 q (octet_reads_back q hq),
        whole-show 255 r (octet_reads_back r hr),
        whole-show 255 s (octet_reads_back s hs),
      ))

  four-IsTight : IsTight four
  unfolding four is_space
  four-IsTight =
      let tight =
        λ (n : ℕ) (h : n < 256). IsDecimal-IsTight (show_number n) (show_number-IsDecimal n h) in
      All-dotted (λ c. is_space c ≡ false) _ _ _ _ refl (tight p hp) (tight q hq) (tight r hr)
        (tight s hs)

  four-IsFree : IsFree b'/' four
  unfolding four
  four-IsFree =
      let free = λ (n : ℕ) (h : n < 256).
        IsDecimal-IsFree b'/' (show_number n) (omega arith) (show_number-IsDecimal n h) in
      All-dotted (λ c. c ≢ b'/') _ _ _ _ (omega arith) (free p hp) (free q hq) (free r hr)
        (free s hs)

  four-ne-nil : truthy four ≡ true
  unfolding four
  four-ne-nil = ground arith

pub octets_of : (a : ℕ) → a < 2 ^ 32 → a / 256 ^ 3 < 256
octets_of a h = omega arith

pub joined :
    (a : ℕ)
    → a < 2 ^ 32
    → (a / 256 ^ 3 * 256 ^ 3 + a / 256 ^ 2 % 256 * 256 ^ 2 + a / 256 % 256 * 256 + a % 256) % 2 ^ 32
      ≡ a
joined a h = omega arith

module _ (a : ℕ) (h : a < 2 ^ 32) where
  pub show_address-IsTight : IsTight (show_address a)
  unfolding show_address four
  show_address-IsTight =
      four-IsTight (a / 256 ^ 3) (a / 256 ^ 2 % 256) (a / 256 % 256) (a % 256) (octets_of a h)
        (omega arith) (omega arith) (omega arith)

  show_address-IsFree : IsFree b'/' (show_address a)
  unfolding show_address four
  show_address-IsFree =
      four-IsFree (a / 256 ^ 3) (a / 256 ^ 2 % 256) (a / 256 % 256) (a % 256) (octets_of a h)
        (omega arith) (omega arith) (omega arith)

  octets_address-show_address :
      octets_address (map to_number (split b'.' (show_address a))) ≡ some a
  unfolding show_address four
  octets_address-show_address =
      octets_address-four (a / 256 ^ 3) (a / 256 ^ 2 % 256) (a / 256 % 256) (a % 256)
        (octets_of a h) (omega arith) (omega arith) (omega arith)
      ∙ ap some (joined a h)

-- Every 32-bit address, written in dotted decimal, is read back.
pub parse_ipv4_address-show_address :
    (a : ℕ) → a < 2 ^ 32 → parse_ipv4_address (show_address a) ≡ some a
unfolding parse_ipv4_address
parse_ipv4_address-show_address a h =
    rw (trim-IsTight (show_address a) (show_address-IsTight a h)) (octets_address-show_address a h)

show_cidr-IsTight : (c : Cidr) → IsCidr c → IsTight (show_cidr c)
unfolding show_cidr is_space
show_cidr-IsTight c v =
    let b = show_number c.bits in
    All-append (λ c. is_space c ≡ false) (show_address c.address) (b'/' ∷ b)
      (show_address-IsTight c.address v.address_fits)
      (refl, IsDecimal-IsTight b (show_number-IsDecimal c.bits (omega (arith, v.bits_fit))))

pub split-show_cidr :
    (c : Cidr)
    → IsCidr c
    → split b'/' (show_cidr c) ≡ show_address c.address ∷ show_number c.bits ∷ []
unfolding show_cidr
split-show_cidr c v =
    let b = show_number c.bits in
    let decimal = show_number-IsDecimal c.bits (omega (arith, v.bits_fit)) in
    rw
      (
        split-sep b'/' (show_address c.address) b (show_address-IsFree c.address v.address_fits),
        split-end b'/' b (IsDecimal-IsFree b'/' b (omega arith) decimal),
      )
      refl

pub truthy-show_address : (a : ℕ) → a < 2 ^ 32 → truthy (show_address a) ≡ true
unfolding show_address four
truthy-show_address a h =
    four-ne-nil (a / 256 ^ 3) (a / 256 ^ 2 % 256) (a / 256 % 256) (a % 256) (octets_of a h)
      (omega arith) (omega arith) (omega arith)

-- Every block with a 32-bit address and a prefix of at most 32 bits, written as a.b.c.d/n, is read
-- back.
pub parse_ipv4_cidr-show_cidr : (c : Cidr) → IsCidr c → parse_ipv4_cidr (show_cidr c) ≡ some c
unfolding parse_ipv4_cidr parse_pieces with_bits
parse_ipv4_cidr-show_cidr c v =
    let bits = all_below_sound 33 (reads_back 32) c.bits bits_table (omega (arith, v.bits_fit)) in
    rw (trim-IsTight (show_cidr c) (show_cidr-IsTight c v), split-show_cidr c v)
      (ground (
        arith,
        truthy-show_address c.address v.address_fits,
        in_range 32 c.bits bits,
        whole-show 32 c.bits bits,
        octets_address-show_address c.address v.address_fits,
      ))
