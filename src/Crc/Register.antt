-- ===== src/Crc/Register.antt =====
-- The shift register of `_crc` (protocol/crc.py): with an odd polynomial a round is injective.
use native.Mathlib.Nat.{
  pow-suc, one-le-pow, mod-lt, mod-eq_of_lt, div-eq_of_lt, add-div_right, zero-mul, add-mod_right,
}
use openframetap.Prelude.{
  ℕ, zero, suc, ◌+◌, ◌-◌, ◌*◌, ◌/◌, ◌%◌, ◌^◌, ◌≤◌, ◌<◌, bit_and, bit_xor, ◌≡◌, sym, ap, ◌∙◌, inl,
  inr, true, false, arith, ◌==◌, Bool-cases, ltb, ltb→lt, ltb→le,
}
use openframetap.Bits.{bit_and_mask, bit_and_bit, bit_xor-mod, bit_xor-parity, bit_xor-injective}
use openframetap.Crc.{shift_round, shift_rounds}

-- The two branches of one round, at a width of `k + 1`.
module _ (k polynomial : ℕ) (fits : polynomial < 2 ^ suc k) where
  top_bit : suc k - 1 ≡ k
  top_bit = omega arith

  round_low : (v : ℕ) → v < 2 ^ k → shift_round (suc k) polynomial v ≡ v * 2
  unfolding shift_round
  round_low v h =
      rw (top_bit, bit_and_bit k v, clear, zero-mul, bit_and_mask (suc k) (v * 2))
        (mod-eq_of_lt (omega (arith, pow-suc 2 k)))
    where
      clear : v / 2 ^ k % 2 ≡ 0
      clear = ap (λ (t : ℕ). t % 2) (div-eq_of_lt h)

  round_high :
      (v : ℕ) → v < 2 ^ k → shift_round (suc k) polynomial (v + 2 ^ k) ≡ bit_xor (v * 2) polynomial
  unfolding shift_round
  round_high v h = rw (
    top_bit,
    bit_and_bit k (v + 2 ^ k),
    set,
    nonzero (2 ^ k) (one-le-pow k 2 (omega arith)),
    bit_and_mask (suc k) (bit_xor ((v + 2 ^ k) * 2) polynomial),
    bit_xor-mod (suc k) ((v + 2 ^ k) * 2) polynomial,
    mod-eq_of_lt fits,
    dropped,
  )
    where
      set : (v + 2 ^ k) / 2 ^ k % 2 ≡ 1
      set =
          ap (λ (t : ℕ). t % 2)
            (add-div_right v (one-le-pow k 2 (omega arith))
              ∙ ap (λ (t : ℕ). t + 1) (div-eq_of_lt h))

      nonzero : (p : ℕ) → 0 < p → (1 * p == 0) ≡ false
      nonzero p h = ground arith

      dropped : (v + 2 ^ k) * 2 % 2 ^ suc k ≡ v * 2
      dropped =
          ap (λ (t : ℕ). t % 2 ^ suc k) (omega (arith, pow-suc 2 k))
          ∙ add-mod_right (v * 2) (2 ^ suc k)
          ∙ mod-eq_of_lt (omega (arith, pow-suc 2 k))

  round-lt : (v : ℕ) → shift_round (suc k) polynomial v < 2 ^ suc k
  unfolding shift_round
  round-lt v = elim (Bool-cases (bit_and v (2 ^ (suc k - 1)) == 0)) [
    | inl e ↦ rw (e, bit_and_mask (suc k) (v * 2)) (mod-lt _ (one-le-pow (suc k) 2 (omega arith)))
    | inr e ↦
        rw (e, bit_and_mask (suc k) (bit_xor (v * 2) polynomial))
          (mod-lt _ (one-le-pow (suc k) 2 (omega arith)))
  ]

  module _ (odd : polynomial % 2 ≡ 1) where
    -- A round of the shift register loses nothing: the parity of the result tells the branch.
    round-injective :
        (v w : ℕ)
        → v < 2 ^ suc k
        → w < 2 ^ suc k
        → shift_round (suc k) polynomial v ≡ shift_round (suc k) polynomial w
        → v ≡ w
    round-injective v w p q e = elim (Bool-cases (ltb v (2 ^ k))) [
      | inl vl ↦ elim (Bool-cases (ltb w (2 ^ k))) [
        | inl wl ↦ omega (arith, round_low v (ltb→lt _ _ vl), round_low w (ltb→lt _ _ wl))
        | inr wh ↦ absurd (mixed v w p q e vl wh)
      ]
      | inr vh ↦ elim (Bool-cases (ltb w (2 ^ k))) [
        | inl wl ↦ absurd (mixed w v q p (sym e) wl vh)
        | inr wh ↦
            let low : (v - 2 ^ k) * 2 ≡ (w - 2 ^ k) * 2 =
              bit_xor-injective _ _ polynomial (sym (high v p vh) ∙ e ∙ high w q wh) in
            omega (arith, ltb→le _ _ vh, ltb→le _ _ wh)
      ]
    ]
      where
        high :
            (v : ℕ)
            → v < 2 ^ suc k
            → ltb v (2 ^ k) ≡ false
            → shift_round (suc k) polynomial v ≡ bit_xor ((v - 2 ^ k) * 2) polynomial
        high v p h =
            ap (shift_round (suc k) polynomial) (omega (arith, ltb→le _ _ h))
            ∙ round_high (v - 2 ^ k) (omega (arith, pow-suc 2 k, ltb→le _ _ h))

        mixed :
            (v w : ℕ)
            → v < 2 ^ suc k
            → w < 2 ^ suc k
            → shift_round (suc k) polynomial v ≡ shift_round (suc k) polynomial w
            → ltb v (2 ^ k) ≡ true
            → ltb w (2 ^ k) ≡ false
            → ⊥
        mixed v w p q e vl wh = omega (
          arith,
          round_low v (ltb→lt _ _ vl),
          high w q wh,
          bit_xor-parity ((w - 2 ^ k) * 2) polynomial,
        )

    rounds-injective :
        (n v w : ℕ)
        → v < 2 ^ suc k
        → w < 2 ^ suc k
        → shift_rounds n (suc k) polynomial v ≡ shift_rounds n (suc k) polynomial w
        → v ≡ w
    unfolding shift_rounds
    rounds-injective zero v w p q e = e
    rounds-injective (suc n) v w p q e =
        round-injective v w p q (rounds-injective n _ _ (round-lt v) (round-lt w) e)

  rounds-lt : (n v : ℕ) → v < 2 ^ suc k → shift_rounds n (suc k) polynomial v < 2 ^ suc k
  unfolding shift_rounds
  rounds-lt zero v h = h
  rounds-lt (suc n) v h = rounds-lt n _ (round-lt v)

pub at_width-lt :
    (w polynomial n v : ℕ)
    → 1 ≤ w
    → polynomial < 2 ^ w
    → v < 2 ^ w
    → shift_rounds n w polynomial v < 2 ^ w
at_width-lt zero polynomial n v h f p = absurd (omega arith)
at_width-lt (suc k) polynomial n v h f p = rounds-lt k polynomial f n v p

pub at_width-injective :
    (w polynomial n u v : ℕ)
    → 1 ≤ w
    → polynomial < 2 ^ w
    → polynomial % 2 ≡ 1
    → u < 2 ^ w
    → v < 2 ^ w
    → shift_rounds n w polynomial u ≡ shift_rounds n w polynomial v
    → u ≡ v
at_width-injective zero polynomial n u v h f o p q e = absurd (omega arith)
at_width-injective (suc k) polynomial n u v h f o p q e =
    rounds-injective k polynomial f o n u v p q e
