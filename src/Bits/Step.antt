-- ===== src/Bits/Step.antt =====
-- Each bitwise operator by its lowest digit: the recursion that the native operators stand for.
use Prim.Native.Nat.{digits, bit_and-bitwise, bit_or-bitwise, bit_xor-bitwise, differ}
use openframetap.Prelude.{
  ◌-◌, sym, ap, ℕ, zero, suc, ◌+◌, ◌*◌, ◌/◌, ◌%◌, ◌≤◌, ◌<◌, min, max, bit_and, bit_or, bit_xor, ◌≡◌,
  refl, ◌∙◌, arith,
}

module _ (z : ℕ → ℕ) (f : ℕ → ℕ → ℕ) where
  -- One round more than enough changes nothing, and so do any number more.
  one_more : (n a b : ℕ) → a ≤ n → digits z f (suc n) a b ≡ digits z f n a b
  one_more n zero b h = elim n as (λ k. digits z f (suc k) 0 b ≡ digits z f k 0 b) [
    | zero ↦ refl
    | suc k ↦ refl
  ]
  one_more zero (suc a) b h = absurd (omega arith)
  one_more (suc n) (suc a) b h = rw (one_more n (suc a / 2) (b / 2) (omega arith))

  some_more : (extra n a b : ℕ) → a ≤ n → digits z f (extra + n) a b ≡ digits z f n a b
  some_more zero n a b h =
      let same : zero + n ≡ n = omega arith in ap (λ (k : ℕ). digits z f k a b) same
  some_more (suc extra) n a b h =
      let same : suc extra + n ≡ suc (extra + n) = omega arith in
      ap (λ (k : ℕ). digits z f k a b) same
      ∙ one_more (extra + n) a b (omega arith)
      ∙ some_more extra n a b h

  lowest :
      (a b : ℕ)
      → digits z f (suc a) (suc a) b
        ≡ digits z f (suc a / 2) (suc a / 2) (b / 2) * 2 + f (suc a % 2) (b % 2)
  lowest a b =
      let half = suc a / 2 in
      let split : (a - half) + half ≡ a = omega arith in
      ap (λ (t : ℕ). t * 2 + f (suc a % 2) (b % 2))
        (ap (λ (k : ℕ). digits z f k half (b / 2)) (sym split)
          ∙ some_more (a - half) half half (b / 2) (omega arith))

pub bit_and_step : (m n : ℕ) → bit_and m n ≡ bit_and (m / 2) (n / 2) * 2 + min (m % 2) (n % 2)
bit_and_step m n =
    elim m as (λ (k : ℕ). bit_and k n ≡ bit_and (k / 2) (n / 2) * 2 + min (k % 2) (n % 2)) [
      | suc k ↦ simp bit_and-bitwise (lowest (λ y. 0) min k n)
      | zero ↦ simp bit_and-bitwise (omega arith)
    ]

pub bit_or_step : (m n : ℕ) → bit_or m n ≡ bit_or (m / 2) (n / 2) * 2 + max (m % 2) (n % 2)
bit_or_step m n =
    elim m as (λ (k : ℕ). bit_or k n ≡ bit_or (k / 2) (n / 2) * 2 + max (k % 2) (n % 2)) [
      | suc k ↦ simp bit_or-bitwise (lowest (λ y. y) max k n)
      | zero ↦ simp bit_or-bitwise (omega arith)
    ]

-- The lowest digit of an exclusive or.
differ-eq-odd : (a b : ℕ) → a < 2 → b < 2 → differ a b ≡ (a + b) % 2
differ-eq-odd zero zero p q = refl
differ-eq-odd zero (suc zero) p q = refl
differ-eq-odd (suc zero) zero p q = refl
differ-eq-odd (suc zero) (suc zero) p q = refl
differ-eq-odd (suc (suc a)) b p q = absurd (omega arith)
differ-eq-odd a (suc (suc b)) p q = absurd (omega arith)

bit_xor_digits : (a b : ℕ) → bit_xor a b ≡ bit_xor (a / 2) (b / 2) * 2 + differ (a % 2) (b % 2)
bit_xor_digits zero b = simp bit_xor-bitwise (omega arith)
bit_xor_digits (suc a) b = simp bit_xor-bitwise (lowest (λ y. y) differ a b)

pub bit_xor_step : (a b : ℕ) → bit_xor a b ≡ bit_xor (a / 2) (b / 2) * 2 + (a + b) % 2
bit_xor_step a b =
    bit_xor_digits a b ∙ omega (arith, differ-eq-odd (a % 2) (b % 2) (omega arith) (omega arith))
