-- ===== src/Floats.antt =====
-- The operations on Python's floats that the control code uses, as an interface: comparisons, the
-- sign, differences, literals, and the two places where a float is rounded to an integer.
use openframetap.Prelude.{suc, ℕ, Bool, ◌&&◌, if◌then◌else◌}

-- Python's integers where a sign is possible.
pub data ℤ : Type 0 where
  pos negsuc : ℕ → ℤ

abbrev pub abs : ℤ → ℕ
abs (pos n) = n
abs (negsuc n) = suc n

pub record Floats (W : Type 0) : Type 0 where
  -- the float of the decimal fraction with this numerator and denominator
  pub literal : ℕ → ℕ → W
  pub neg : W → W
  pub sub : W → W → W
  pub lt : W → W → Bool
  pub le : W → W → Bool
  pub eq : W → W → Bool
  -- round(value * (dps * 10.0))
  pub rounded_units : W → W → ℤ
  -- round(1_000_000_000 / frequency)
  pub period_ns : W → ℕ

-- The products and quotients of floats, and math.hypot, with their rounding.
pub record FloatProducts (W : Type 0) : Type 0 where
  pub mul : W → W → W
  pub div : W → W → W
  pub hypot : W → W → W

module _ {W : Type 0} ⦃f : Floats W⦄ where
  abbrev pub nought : W
  nought = f.literal 0 1

  -- Python's min and max: the first argument, unless the second is beyond it
  abbrev pub minimum : W → W → W
  minimum a b = if f.lt b a then b else a

  abbrev pub maximum : W → W → W
  maximum a b = if f.lt a b then b else a

  -- -limit <= value <= limit
  abbrev pub within : W → W → Bool
  within limit value = f.le (f.neg limit) value && f.le value limit
