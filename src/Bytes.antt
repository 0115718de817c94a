-- ===== src/Bytes.antt =====
-- Python's `bytes`, `int.from_bytes` and `int.to_bytes` as the codecs use them: a byte string is a
-- list of numbers below 256.
use openframetap.Prelude.{
  ℕ, zero, suc, ◌+◌, ◌*◌, ◌/◌, ◌%◌, ◌≤◌, ◌<◌, ◌≡◌, refl, Bool, true, false, Option, none, some,
  List, [], ◌∷◌, ◌&&◌, arith, ◌==◌, ==_iff, ==_refl, leb, le→leb, leb→le, inl, inr, if◌then◌else◌,
  All, Bool-cases, Result, ok, err,
}

abbrev pub IsBytes : List ℕ → Type 0
IsBytes = All (λ b. b < 256)

-- int.from_bytes(octets, "little")
unfoldable pub from_little : List ℕ → ℕ
from_little [] = 0
from_little (b ∷ rest) = b + 256 * from_little rest

-- int.from_bytes(octets, "big")
big_onto : ℕ → List ℕ → ℕ
big_onto n [] = n
big_onto n (b ∷ rest) = big_onto (256 * n + b) rest

unfoldable pub from_big : List ℕ → ℕ
unfolding big_onto
from_big octets = big_onto 0 octets

-- value.to_bytes(count, "little") of a value that fits
unfoldable pub to_little : ℕ → ℕ → List ℕ
to_little zero value = []
to_little (suc n) value = value % 256 ∷ to_little n (value / 256)

-- ==  of two byte strings
unfoldable pub same_bytes : List ℕ → List ℕ → Bool
same_bytes [] [] = true
same_bytes [] (b ∷ bs) = false
same_bytes (a ∷ as') [] = false
same_bytes (a ∷ as') (b ∷ bs) = a == b && same_bytes as' bs

pub same_bytes_refl : (a : List ℕ) → same_bytes a a ≡ true
unfolding same_bytes
same_bytes_refl [] = refl
same_bytes_refl (x ∷ xs) = rw (==_refl x) (same_bytes_refl xs)

pub same_bytes-eq : (a b : List ℕ) → same_bytes a b ≡ true → a ≡ b
unfolding same_bytes
same_bytes-eq [] [] h = refl
same_bytes-eq [] (b ∷ bs) h = cc
same_bytes-eq (a ∷ as') [] h = cc
same_bytes-eq (a ∷ as') (b ∷ bs) h = elim (Bool-cases (a == b)) [
  | inl e ↦ cc ((==_iff a b).0 e, same_bytes-eq as' bs (rw e at h))
  | inr e ↦ cc (rw e at h)
]

pub to_little-IsBytes : (n value : ℕ) → IsBytes (to_little n value)
unfolding to_little
to_little-IsBytes zero value = tt
to_little-IsBytes (suc n) value = (omega arith, to_little-IsBytes n (value / 256))

-- A loop over (name, value, maximum): the first value outside its range.
unfoldable pub first_outside {ℓ} : {A : Type ℓ} → List (A × ℕ × ℕ) → Option (A × ℕ)
first_outside [] = none
first_outside ((name, value, maximum) ∷ rest) =
    if leb value maximum then first_outside rest else some (name, maximum)

-- `raise` for the first value outside its range, if there is one
abbrev pub reject_first : {E A : Type 0} → Option (A × ℕ) → (A × ℕ → E) → Result E (Unit {0})
reject_first none e = ok tt
reject_first (some bad) e = err (e bad)

-- Every value lies within its range.
abbrev pub Within {ℓ} : {A : Type ℓ} → List (A × ℕ × ℕ) → Type 0
Within [] = Unit
Within ((name, value, maximum) ∷ rest) = (value ≤ maximum) × Within rest

pub first_outside-none {ℓ} :
    {A : Type ℓ} (checks : List (A × ℕ × ℕ)) → first_outside checks ≡ none → Within checks
unfolding first_outside
first_outside-none [] h = tt
first_outside-none ((name, value, maximum) ∷ rest) h = elim (Bool-cases (leb value maximum)) [
  | inl e ↦ (leb→le _ _ e, first_outside-none rest (rw e at h))
  | inr e ↦ cc (rw e at h)
]

pub none-first_outside {ℓ} :
    {A : Type ℓ} (checks : List (A × ℕ × ℕ)) → Within checks → first_outside checks ≡ none
unfolding first_outside
none-first_outside [] h = refl
none-first_outside ((name, value, maximum) ∷ rest) h =
    rw (le→leb value maximum h.0) (none-first_outside rest h.1)

pub two_little : (lo hi : ℕ) → from_little (lo ∷ hi ∷ []) ≡ lo + 256 * hi
unfolding from_little
two_little lo hi = omega arith

pub two_big : (hi lo : ℕ) → from_big (hi ∷ lo ∷ []) ≡ 256 * hi + lo
unfolding from_big
two_big hi lo = omega arith

pub from-to_little : (value : ℕ) → value < 65536 → from_little (to_little 2 value) ≡ value
unfolding from_little to_little
from-to_little value h = omega arith
