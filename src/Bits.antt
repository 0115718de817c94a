-- ===== src/Bits.antt =====
-- Laws of the bitwise operators that the codecs use: masks, disjoint fields and exclusive or.
mod Step
use Step.{bit_and_step, bit_or_step, bit_xor_step}
use Prim.Native.Nat.{bit_xor-bitwise}
use native.Mathlib.Nat.{
  pow-suc, one-le-pow, mul_comm, div-div-eq-div-mul, mod-lt, mod-one, div-add-mod', mod-eq_of_lt,
  add-mul-mod_self_right,
}
use openframetap.Prelude.{
  ℕ, zero, suc, ◌+◌, ◌-◌, ◌*◌, ◌/◌, ◌%◌, ◌^◌, ◌≤◌, ◌<◌, bit_and, bit_or, bit_xor, ◌≡◌, refl, sym,
  ap, ap₂, ◌∙◌, arith,
}

mod_double : (a p : ℕ) → 0 < p → a % (p * 2) ≡ (a / 2) % p * 2 + a % 2
mod_double a p h =
    ap (λ (t : ℕ). t % (p * 2)) split
    ∙ add-mul-mod_self_right ((a / 2) % p * 2 + a % 2) (a / 2 / p) (p * 2)
    ∙ mod-eq_of_lt (omega (arith, mod-lt (a / 2) h))
  where
    split : a ≡ ((a / 2) % p * 2 + a % 2) + a / 2 / p * (p * 2)
    split = omega (arith, div-add-mod' (a / 2) p)

bit_and-zero_upto : (n a : ℕ) → a ≤ n → bit_and a 0 ≡ 0
bit_and-zero_upto n zero h = refl
bit_and-zero_upto zero (suc a) h = absurd (omega arith)
bit_and-zero_upto (suc n) (suc a) h =
    omega (arith, bit_and_step (suc a) 0, bit_and-zero_upto n (suc a / 2) (omega arith))

half_mask : (p : ℕ) → 0 < p → (p * 2 - 1) / 2 ≡ p - 1
half_mask p h = omega arith

-- Masking the low `k` bits is the remainder by `2 ^ k`.
pub bit_and_mask : (k a : ℕ) → bit_and a (2 ^ k - 1) ≡ a % 2 ^ k
bit_and_mask zero a = omega (arith, bit_and-zero_upto a a (omega arith))
bit_and_mask (suc k) a = rw (pow-suc 2 k) (
    bit_and_step a (2 ^ k * 2 - 1)
    ∙ rw (half_mask (2 ^ k) pos)
        (omega (arith, bit_and_mask k (a / 2), mod_double a (2 ^ k) pos, pos)))
  where
    pos : 0 < 2 ^ k
    pos = one-le-pow k 2 (omega arith)

bit_or-zero_upto : (n a : ℕ) → a ≤ n → bit_or a 0 ≡ a
bit_or-zero_upto n zero h = refl
bit_or-zero_upto zero (suc a) h = absurd (omega arith)
bit_or-zero_upto (suc n) (suc a) h =
    omega (arith, bit_or_step (suc a) 0, bit_or-zero_upto n (suc a / 2) (omega arith))

half_shift : (q p : ℕ) → q * (p * 2) / 2 ≡ q * p
half_shift q p = omega arith

-- `(q << k) | r` is a sum when `r` fits in `k` bits.
pub bit_or_fields : (k q r : ℕ) → r < 2 ^ k → bit_or (q * 2 ^ k) r ≡ q * 2 ^ k + r
bit_or_fields zero q zero h = omega (arith, bit_or-zero_upto (q * 1) (q * 1) (omega arith))
bit_or_fields zero q (suc r) h = absurd (omega arith)
bit_or_fields (suc k) q r h = rw (pow-suc 2 k) (
    bit_or_step (q * (2 ^ k * 2)) r
    ∙ rw (half_shift q (2 ^ k))
        (omega (arith, bit_or_fields k q (r / 2) (omega (arith, pow-suc 2 k)))))

bit_or_comm_upto : (n a b : ℕ) → a ≤ n → b ≤ n → bit_or a b ≡ bit_or b a
bit_or_comm_upto zero zero zero p q = refl
bit_or_comm_upto zero zero (suc b) p q = absurd (omega arith)
bit_or_comm_upto zero (suc a) b p q = absurd (omega arith)
bit_or_comm_upto (suc n) a b p q = omega (
  arith,
  bit_or_step a b,
  bit_or_step b a,
  bit_or_comm_upto n (a / 2) (b / 2) (omega arith) (omega arith),
)

pub bit_or_comm : (a b : ℕ) → bit_or a b ≡ bit_or b a
bit_or_comm a b = bit_or_comm_upto (a + b) a b (omega arith) (omega arith)

-- `r | (q << k)`
pub bit_or_fields_low : (k q r : ℕ) → r < 2 ^ k → bit_or r (q * 2 ^ k) ≡ q * 2 ^ k + r
bit_or_fields_low k q r h = bit_or_comm r (q * 2 ^ k) ∙ bit_or_fields k q r h

bit_xor-self_upto : (n a : ℕ) → a ≤ n → bit_xor a a ≡ 0
bit_xor-self_upto n zero h = refl
bit_xor-self_upto zero (suc a) h = absurd (omega arith)
bit_xor-self_upto (suc n) (suc a) h =
    omega (arith, bit_xor_step (suc a) (suc a), bit_xor-self_upto n (suc a / 2) (omega arith))

pub bit_xor_self : (a : ℕ) → bit_xor a a ≡ 0
bit_xor_self a = bit_xor-self_upto a a (omega arith)

bit_xor_cancel_upto : (n a b : ℕ) → a ≤ n → b ≤ n → bit_xor (bit_xor a b) b ≡ a
bit_xor_cancel_upto zero zero zero p q = refl
bit_xor_cancel_upto zero zero (suc b) p q = absurd (omega arith)
bit_xor_cancel_upto zero (suc a) b p q = absurd (omega arith)
bit_xor_cancel_upto (suc n) a b p q =
    bit_xor_step (bit_xor a b) b
    ∙ rw halved (
        omega (
          arith,
          bit_xor_step a b,
          bit_xor_cancel_upto n (a / 2) (b / 2) (omega arith) (omega arith),
        ))
  where
    halved : bit_xor a b / 2 ≡ bit_xor (a / 2) (b / 2)
    halved = omega (arith, bit_xor_step a b)

-- Combining with the same value twice gives the first value back.
pub bit_xor_cancel : (a b : ℕ) → bit_xor (bit_xor a b) b ≡ a
bit_xor_cancel a b = bit_xor_cancel_upto (a + b) a b (omega arith) (omega arith)

pub bit_xor-lt : (k a b : ℕ) → a < 2 ^ k → b < 2 ^ k → bit_xor a b < 2 ^ k
bit_xor-lt zero zero zero p q = omega arith
bit_xor-lt zero zero (suc b) p q = absurd (omega arith)
bit_xor-lt zero (suc a) b p q = absurd (omega arith)
bit_xor-lt (suc k) a b p q = omega (
  arith,
  pow-suc 2 k,
  bit_xor_step a b,
  bit_xor-lt k (a / 2) (b / 2) (omega (arith, pow-suc 2 k)) (omega (arith, pow-suc 2 k)),
)

-- The low `k` bits of an exclusive or depend on the low `k` bits alone.
pub bit_xor-mod : (k a b : ℕ) → bit_xor a b % 2 ^ k ≡ bit_xor (a % 2 ^ k) (b % 2 ^ k)
bit_xor-mod zero a b = simp mod-one
bit_xor-mod (suc k) a b = rw (pow-suc 2 k) (
    mod_double (bit_xor a b) (2 ^ k) pos
    ∙ rw halved (
        omega (
          arith,
          bit_xor_step (a % (2 ^ k * 2)) (b % (2 ^ k * 2)),
          bit_xor_step a b,
          bit_xor-mod k (a / 2) (b / 2),
          lows,
          mod_double a (2 ^ k) pos,
          mod_double b (2 ^ k) pos,
        )))
  where
    pos : 0 < 2 ^ k
    pos = one-le-pow k 2 (omega arith)

    halved : bit_xor a b / 2 ≡ bit_xor (a / 2) (b / 2)
    halved = omega (arith, bit_xor_step a b)

    lows :
        bit_xor (a % (2 ^ k * 2) / 2) (b % (2 ^ k * 2) / 2)
        ≡ bit_xor (a / 2 % 2 ^ k) (b / 2 % 2 ^ k)
    lows =
        ap₂ bit_xor (omega (arith, mod_double a (2 ^ k) pos))
          (omega (arith, mod_double b (2 ^ k) pos))

bit_xor_comm_upto : (n a b : ℕ) → a ≤ n → b ≤ n → bit_xor a b ≡ bit_xor b a
bit_xor_comm_upto zero zero zero p q = refl
bit_xor_comm_upto zero zero (suc b) p q = absurd (omega arith)
bit_xor_comm_upto zero (suc a) b p q = absurd (omega arith)
bit_xor_comm_upto (suc n) a b p q = omega (
  arith,
  bit_xor_step a b,
  bit_xor_step b a,
  bit_xor_comm_upto n (a / 2) (b / 2) (omega arith) (omega arith),
)

pub bit_xor_comm : (a b : ℕ) → bit_xor a b ≡ bit_xor b a
bit_xor_comm a b = bit_xor_comm_upto (a + b) a b (omega arith) (omega arith)

-- Combining with a fixed value loses nothing.
pub bit_xor-injective : (a b c : ℕ) → bit_xor a c ≡ bit_xor b c → a ≡ b
bit_xor-injective a b c e =
    sym (bit_xor_cancel a c) ∙ ap (λ (t : ℕ). bit_xor t c) e ∙ bit_xor_cancel b c

pub bit_xor-injective_left : (a b c : ℕ) → bit_xor c a ≡ bit_xor c b → a ≡ b
bit_xor-injective_left a b c e = bit_xor-injective a b c (bit_xor_comm a c ∙ e ∙ bit_xor_comm c b)

pub bit_xor-zero : (a : ℕ) → bit_xor a 0 ≡ a
bit_xor-zero a = bit_xor_comm a 0 ∙ zero-bit_xor a
  where
    zero-bit_xor : (b : ℕ) → bit_xor 0 b ≡ b
    zero-bit_xor b = bit_xor-bitwise 0 b

-- The lowest bit of an exclusive or.
pub bit_xor-parity : (a b : ℕ) → bit_xor a b % 2 ≡ (a + b) % 2
bit_xor-parity a b = omega (arith, bit_xor_step a b)

-- The test of one bit, `value & (1 << k)`.
pub bit_and_bit : (k a : ℕ) → bit_and a (2 ^ k) ≡ a / 2 ^ k % 2 * 2 ^ k
bit_and_bit zero a =
    omega (arith, bit_and_step a 1, bit_and-zero_upto (a / 2) (a / 2) (omega arith))
bit_and_bit (suc k) a = rw (pow-suc 2 k) (
    bit_and_step a (2 ^ k * 2)
    ∙ rw (half_double (2 ^ k), quarter) (omega (arith, bit_and_bit k (a / 2))))
  where
    half_double : (p : ℕ) → p * 2 / 2 ≡ p
    half_double p = omega arith

    quarter : a / (2 ^ k * 2) ≡ a / 2 / 2 ^ k
    quarter = ap (λ (t : ℕ). a / t) (mul_comm (2 ^ k) 2) ∙ sym (div-div-eq-div-mul a 2 (2 ^ k))

pub bit_or-lt : (k a b : ℕ) → a < 2 ^ k → b < 2 ^ k → bit_or a b < 2 ^ k
bit_or-lt zero zero zero p q = omega arith
bit_or-lt zero zero (suc b) p q = absurd (omega arith)
bit_or-lt zero (suc a) b p q = absurd (omega arith)
bit_or-lt (suc k) a b p q = omega (
  arith,
  pow-suc 2 k,
  bit_or_step a b,
  bit_or-lt k (a / 2) (b / 2) (omega (arith, pow-suc 2 k)) (omega (arith, pow-suc 2 k)),
)

-- The mask of the three top bits of an octet.
pub bit_and_top_three : (a : ℕ) → a < 256 → bit_and a 0xE0 ≡ a / 32 * 32
bit_and_top_three a h =
    let a1 = a / 2 in
    let a2 = a1 / 2 in
    let a3 = a2 / 2 in
    let a4 = a3 / 2 in
    let first : bit_and a 224 ≡ bit_and a1 112 * 2 = omega (arith, bit_and_step a 224) in
    let second : bit_and a1 112 ≡ bit_and a2 56 * 2 = omega (arith, bit_and_step a1 112) in
    let third : bit_and a2 56 ≡ bit_and a3 28 * 2 = omega (arith, bit_and_step a2 56) in
    let fourth : bit_and a3 28 ≡ bit_and a4 14 * 2 = omega (arith, bit_and_step a3 28) in
    let fifth : bit_and a4 14 ≡ bit_and (a4 / 2) 7 * 2 = omega (arith, bit_and_step a4 14) in
    let last : bit_and (a4 / 2) 7 ≡ a4 / 2 % 8 = bit_and_mask 3 (a4 / 2) in
    omega (arith, first, second, third, fourth, fifth, last)
