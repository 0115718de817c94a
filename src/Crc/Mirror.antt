-- ===== src/Crc/Mirror.antt =====
-- `_reflect` of protocol/crc.py reverses the low bits of a number.
use native.Mathlib.Nat.{pow-suc, one-le-pow, div-div-eq-div-mul, div-one, zero-mul, add-mul}
use native.Mathlib.Numerals.{add-one}
use openframetap.Prelude.{
  ℕ, zero, suc, ◌+◌, ◌-◌, ◌*◌, ◌/◌, ◌%◌, ◌^◌, ◌≤◌, ◌<◌, bit_and, bit_or, ◌≡◌, sym, ◌∙◌, inl, inr,
  false, arith, ◌==◌, if◌then◌else◌, Bool-cases, ==_iff, ==_ne,
}
use openframetap.Bits.{bit_and_bit, bit_or_fields}
use openframetap.Crc.{reflect_rounds, reflect}

-- The reversal by recursion: the lowest bit goes to the top.
pub mirror : ℕ → ℕ → ℕ
mirror zero value = 0
mirror (suc k) value = value % 2 * 2 ^ k + mirror k (value / 2)

pub mirror-lt : (k value : ℕ) → mirror k value < 2 ^ k
unfolding mirror
mirror-lt zero value = omega arith
mirror-lt (suc k) value =
    let top : value % 2 * 2 ^ k ≤ 2 ^ k = grind arith in
    omega (arith, pow-suc 2 k, mirror-lt k (value / 2), top)

-- The value that one round leaves in `reflected`.
collected :
    (left bit value width q : ℕ)
    → bit + suc left ≡ width
    → (if bit_and value (2 ^ bit) == 0
        then q * 2 ^ suc left
        else bit_or (q * 2 ^ suc left) (2 ^ (width - 1 - bit)))
      ≡ (q * 2 + value / 2 ^ bit % 2) * 2 ^ left
collected left bit value width q e = elim (Bool-cases (value / 2 ^ bit % 2 == 0)) [
  | inl low ↦
      let clear : value / 2 ^ bit % 2 ≡ 0 = (==_iff _ _).0 low in
      rw (bit_and_bit bit value, clear, zero-mul, pow-suc 2 left) (omega arith)
  | inr high ↦
      let one : value / 2 ^ bit % 2 ≡ 1 = omega (arith, ==_ne _ _ high) in
      let left' : width - 1 - bit ≡ left = omega arith in
      let joined : bit_or (q * 2 ^ suc left) (2 ^ left) ≡ q * 2 ^ suc left + 2 ^ left =
        bit_or_fields (suc left) q (2 ^ left)
          (omega (arith, pow-suc 2 left, one-le-pow left 2 (omega arith))) in
      rw
        (
          bit_and_bit bit value,
          one,
          left',
          joined,
          nonzero (2 ^ bit) (one-le-pow bit 2 (omega arith)),
          pow-suc 2 left,
        )
        (omega arith)
]
  where
    nonzero : (p : ℕ) → 0 < p → (1 * p == 0) ≡ false
    nonzero p h = ground arith

rounds-eq-mirror :
    (left bit value width q : ℕ)
    → bit + left ≡ width
    → reflect_rounds left bit value width (q * 2 ^ left)
      ≡ q * 2 ^ left + mirror left (value / 2 ^ bit)
unfolding reflect_rounds mirror
rounds-eq-mirror zero bit value width q e = omega arith
rounds-eq-mirror (suc left) bit value width q e = rw (collected left bit value width q e) (
    rounds-eq-mirror left (bit + 1) value width (q * 2 + value / 2 ^ bit % 2) (omega arith)
    ∙ rw (shifted, add-mul, pow-suc 2 left) (omega arith))
  where
    shifted : value / 2 ^ (bit + 1) ≡ value / 2 ^ bit / 2
    shifted = rw (add-one, pow-suc 2 bit) (sym (div-div-eq-div-mul value (2 ^ bit) 2))

-- Reflecting any value in any width gives the mirror image of its low bits, the lowest of them at the
-- top; bits above the width are dropped.
pub reflect-eq-mirror : (value width : ℕ) → reflect value width ≡ mirror width value
unfolding reflect
reflect-eq-mirror value width =
    (rw zero-mul at (rounds-eq-mirror width 0 value width 0 (omega arith)))
    ∙ rw div-one (omega arith)

-- A leading digit and the rest below it are determined by their sum.
digits_unique :
    (d e p x y : ℕ) → d < 2 → e < 2 → x < p → y < p → d * p + x ≡ e * p + y → (d ≡ e) × (x ≡ y)
digits_unique zero zero p x y hd he hx hy h = omega arith
digits_unique zero (suc zero) p x y hd he hx hy h = absurd (omega arith)
digits_unique (suc zero) zero p x y hd he hx hy h = absurd (omega arith)
digits_unique (suc zero) (suc zero) p x y hd he hx hy h = omega arith
digits_unique (suc (suc d)) e p x y hd he hx hy h = absurd (omega arith)
digits_unique d (suc (suc e)) p x y hd he hx hy h = absurd (omega arith)

-- No information is lost: a number below `2 ^ k` is determined by its reversal.
pub mirror-injective : (k a b : ℕ) → a < 2 ^ k → b < 2 ^ k → mirror k a ≡ mirror k b → a ≡ b
unfolding mirror
mirror-injective zero a b p q e = omega arith
mirror-injective (suc k) a b p q e =
    let (lowest, rest) =
      digits_unique (a % 2) (b % 2) (2 ^ k) (mirror k (a / 2)) (mirror k (b / 2)) (omega arith)
        (omega arith) (mirror-lt k (a / 2)) (mirror-lt k (b / 2)) e in
    let higher : a / 2 ≡ b / 2 =
      mirror-injective k (a / 2) (b / 2) (omega (arith, pow-suc 2 k)) (omega (arith, pow-suc 2 k))
        rest in
    omega arith
