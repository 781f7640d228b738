-- ===== src/Validation/Cidr/Blocks.antt =====
-- The containment tests of environmentValidation.ts decide inclusion of address blocks.
use Prim.Native.Nat.{bit_and}
use native.Mathlib.Nat.{add-zero, div-mul-le_self, eq_of_mul-eq-mul_right}
use infra_orch_studio.Common.Powers.{
  pow-pos, pow-lt-pow, div-eq_of_coarser, block_fits, div-offset, div-next,
}
use native.Mathlib.Decide.{dec_le}
use infra_orch_studio.Common.{
  ℕ, ◌+◌, ◌-◌, ◌*◌, ◌/◌, ◌^◌, ◌≤◌, ◌<◌, ◌≡◌, refl, ap, sym, subst, ◌∙◌, ◌↔◌, true, ◌==◌, ==_iff,
  all_below, all_below_sound, arith,
}
use infra_orch_studio.Js.Bits.{ones, bit_and-ones, int32_eq, signed, signed_injective, signed_refl}
use infra_orch_studio.Validation.Cidr.{Cidr, mask, cidr_contains, cidr_contains_address}

pub record IsCidr (p : Cidr) : Type 0 where
  pub address_fits : p.address < 2 ^ 32
  pub bits_fit : p.bits ≤ 32

-- An address lies in a block when it agrees with the block's address on the leading bits.
abbrev pub InBlock : Cidr → ℕ → Type 0
InBlock p x = x / 2 ^ (32 - p.bits) ≡ p.address / 2 ^ (32 - p.bits)

mask_table : all_below 33 (λ b. mask b == ones b (32 - b)) ≡ true
unfolding all_below mask
mask_table = refl

mask_lem : (b : ℕ) → b ≤ 32 → mask b ≡ ones b (32 - b)
mask_lem b h = (==_iff _ _).0 (all_below_sound 33 _ b mask_table (omega arith))

masked : (b x : ℕ) → b ≤ 32 → x < 2 ^ 32 → bit_and x (mask b) ≡ x / 2 ^ (32 - b) * 2 ^ (32 - b)
masked b x h fits =
    let split : b + (32 - b) ≡ 32 = omega arith in
    rw (mask_lem b h, bit_and-ones (32 - b) b x (rw split fits))

div-mul-le : (k x : ℕ) → x < 2 ^ 32 → x / 2 ^ k * 2 ^ k < 2 ^ 32
div-mul-le k x h = omega (arith, div-mul-le_self x (2 ^ k))

same_prefix_iff :
    (b x y : ℕ)
    → b ≤ 32
    → x < 2 ^ 32
    → y < 2 ^ 32
    → (int32_eq (signed (bit_and x (mask b))) (signed (bit_and y (mask b))) ≡ true)
      ↔ (x / 2 ^ (32 - b) ≡ y / 2 ^ (32 - b))
same_prefix_iff b x y h hx hy = (
  λ e. eq_of_mul-eq-mul_right (2 ^ (32 - b)) (pow-pos (32 - b)) _ _ (
      signed_injective _ _ (div-mul-le (32 - b) x hx) (div-mul-le (32 - b) y hy)
        (rw (masked b x h hx, masked b y h hy) at e)),
  λ e. rw (masked b x h hx, masked b y h hy, e) (signed_refl (y / 2 ^ (32 - b) * 2 ^ (32 - b))),
)

-- For a block with a 32-bit address and at most 32 prefix bits, and a 32-bit address, the
-- containment test of an address holds exactly for the addresses of the block.
pub cidr_contains_address_iff :
    (p : Cidr) (x : ℕ) → IsCidr p → x < 2 ^ 32 → (cidr_contains_address p x ≡ true) ↔ InBlock p x
unfolding cidr_contains_address
cidr_contains_address_iff p x v h =
    let (to, from) = same_prefix_iff p.bits p.address x v.bits_fit v.address_fits h in
    (λ e. sym (to e), λ e. from (sym e))

cidr_contains_iff_prefix :
    (p c : Cidr)
    → IsCidr p
    → IsCidr c
    → (cidr_contains p c ≡ true) ↔ ((p.bits ≤ c.bits) × InBlock p c.address)
unfolding cidr_contains
cidr_contains_iff_prefix p c v w =
    ground
      (arith, same_prefix_iff p.bits p.address c.address v.bits_fit v.address_fits w.address_fits)

-- A block that is coarser than `p` has two addresses that `p` tells apart.
coarser_not_inside :
    (p c : Cidr)
    → IsCidr p
    → IsCidr c
    → ((x : ℕ) → x < 2 ^ 32 → InBlock c x → InBlock p x)
    → p.bits ≤ c.bits
coarser_not_inside p c v w inside = elim (dec_le p.bits c.bits) [
  | yes h ↦ h
  | no h ↦
      let k = 32 - p.bits in
      let j = 32 - c.bits in
      let base = c.address / 2 ^ j * 2 ^ j in
      let finer = pow-lt-pow k j (omega arith) in
      let split : c.bits + j ≡ 32 = omega arith in
      let width : 2 ^ (c.bits + j) ≡ 2 ^ 32 = ap (λ (t : ℕ). 2 ^ t) split in
      let fits = block_fits j c.bits c.address (rw width w.address_fits) in
      let below : base + 2 ^ j ≤ 2 ^ 32 = subst (λ (t : ℕ). base + 2 ^ j ≤ t) width fits in
      let here = λ (r : ℕ) (h : r < 2 ^ j). div-offset j (c.address / 2 ^ j) r h in
      let first = inside (base + 0) (omega arith) (here 0 (pow-pos j)) in
      let next = inside (base + 2 ^ k) (omega arith) (here (2 ^ k) finer) in
      absurd
        (omega (arith, first, next, div-next k base, ap (λ (t : ℕ). t / 2 ^ k) (add-zero base)))
]

-- For blocks with a 32-bit address and at most 32 prefix bits, the containment test holds exactly
-- when every address of the child lies in the parent.
pub cidr_contains_iff :
    (p c : Cidr)
    → IsCidr p
    → IsCidr c
    → (cidr_contains p c ≡ true) ↔ ((x : ℕ) → x < 2 ^ 32 → InBlock c x → InBlock p x)
cidr_contains_iff p c v w =
    let (to, from) = cidr_contains_iff_prefix p c v w in
    (
      λ e x _ inside.
          div-eq_of_coarser (32 - c.bits) (32 - p.bits) x c.address (omega (arith, (to e).0)) inside
          ∙ (to e).1,
      λ h. from (coarser_not_inside p c v w h, h c.address w.address_fits refl),
    )
