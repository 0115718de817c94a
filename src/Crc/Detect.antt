-- ===== src/Crc/Detect.antt =====
-- The CRCs of protocol/crc.py fit their width, and tell messages apart that differ in one octet.
use native.Mathlib.Nat.{one-le-pow, mod-lt, mod-eq_of_lt}
use native.Mathlib.Numerals.{towards_suc}
use openframetap.Prelude.{
  ℕ, ◌+◌, ◌-◌, ◌*◌, ◌%◌, ◌^◌, ◌≤◌, ◌<◌, bit_and, bit_xor, ◌≡◌, ◌≢◌, refl, sym, ap, ◌∙◌, inl, inr,
  List, [], ◌∷◌, ◌++◌, arith, if◌then◌else◌, Bool-cases, All, All-append,
}
use openframetap.Bits.{bit_and_mask, bit_xor-lt, bit_xor-injective, bit_xor-injective_left}
use openframetap.Crc.{
  reflect, shift_rounds, CrcParameters, crc_octets, crc, crc8_parameters, crc16_parameters,
  crc8_dji, crc16_dji,
}
use openframetap.Crc.Mirror.{mirror-lt, mirror-injective, reflect-eq-mirror}
use openframetap.Crc.Register.{at_width-lt, at_width-injective}

pub reflect-lt : (value width : ℕ) → reflect value width < 2 ^ width
reflect-lt value width = rw (reflect-eq-mirror value width) (mirror-lt width value)

reflect-injective : (k a b : ℕ) → a < 2 ^ k → b < 2 ^ k → reflect a k ≡ reflect b k → a ≡ b
reflect-injective k a b p q e =
    mirror-injective k a b p q (sym (reflect-eq-mirror a k) ∙ e ∙ reflect-eq-mirror b k)

pub crc-lt : (p : CrcParameters) (octets : List ℕ) → crc p octets < 2 ^ p.width
unfolding crc
crc-lt p octets = rw bit_and_mask (mod-lt _ (one-le-pow p.width 2 (omega arith)))

-- What the parameters of a CRC must satisfy for it to see every octet.
pub record IsSound (p : CrcParameters) : Type 0 where
  pub octet_wide : 8 ≤ p.width
  pub polynomial_fits : p.polynomial < 2 ^ p.width
  pub polynomial_odd : p.polynomial % 2 ≡ 1
  pub output_fits : p.xor_output < 2 ^ p.width

eight_more : (s : ℕ) → 2 ^ (s + 8) ≡ 256 * 2 ^ s
eight_more s = simp towards_suc (omega arith)

shift_octet-lt : (w o : ℕ) → 8 ≤ w → o < 256 → o * 2 ^ (w - 8) < 2 ^ w
shift_octet-lt w o h q =
    let width : (w - 8) + 8 ≡ w = omega arith in
    let power : 2 ^ w ≡ 256 * 2 ^ (w - 8) =
      ap (λ (t : ℕ). 2 ^ t) (sym width) ∙ eight_more (w - 8) in
    rw power (grind (arith, one-le-pow (w - 8) 2 (omega arith)))

mul-injective : (a b p : ℕ) → 0 < p → a * p ≡ b * p → a ≡ b
mul-injective a b p h e = grind arith

module _ (p : CrcParameters) (s : IsSound p) where
  -- the octet as it enters the register
  abbrev entered : ℕ → ℕ
  entered octet = if p.reflect_input then reflect octet 8 else octet

  entered-lt : (octet : ℕ) → octet < 256 → entered octet < 256
  entered-lt octet h = elim (Bool-cases p.reflect_input) [
    | inl e ↦ rw e (reflect-lt octet 8)
    | inr e ↦ rw e h
  ]

  entered-injective : (a b : ℕ) → a < 256 → b < 256 → entered a ≡ entered b → a ≡ b
  entered-injective a b ha hb h = elim (Bool-cases p.reflect_input) [
    | inl e ↦ reflect-injective 8 a b ha hb (rw e at h)
    | inr e ↦ rw e at h
  ]

  mixed-lt :
      (v octet : ℕ)
      → v < 2 ^ p.width
      → octet < 256
      → bit_xor v (entered octet * 2 ^ (p.width - 8)) < 2 ^ p.width
  mixed-lt v octet h q =
      bit_xor-lt p.width v _ h
        (shift_octet-lt p.width (entered octet) s.octet_wide (entered-lt octet q))

  -- the register after one octet
  abbrev absorbed : ℕ → ℕ → ℕ
  absorbed v octet =
      shift_rounds 8 p.width p.polynomial (bit_xor v (entered octet * 2 ^ (p.width - 8)))

  absorbed-lt : (v octet : ℕ) → v < 2 ^ p.width → octet < 256 → absorbed v octet < 2 ^ p.width
  absorbed-lt v octet h q =
      at_width-lt p.width p.polynomial 8 _ (omega (arith, s)) s.polynomial_fits
        (mixed-lt v octet h q)

  absorbed-cancel :
      (u v a b : ℕ)
      → u < 2 ^ p.width
      → v < 2 ^ p.width
      → a < 256
      → b < 256
      → absorbed u a ≡ absorbed v b
      → bit_xor u (entered a * 2 ^ (p.width - 8)) ≡ bit_xor v (entered b * 2 ^ (p.width - 8))
  absorbed-cancel u v a b hu hv ha hb e =
      at_width-injective p.width p.polynomial 8 _ _ (omega (arith, s)) s.polynomial_fits
        s.polynomial_odd (mixed-lt u a hu ha) (mixed-lt v b hv hb) e

  octets-lt :
      (octets : List ℕ) (v : ℕ)
      → All (λ o. o < 256) octets
      → v < 2 ^ p.width
      → crc_octets p v octets < 2 ^ p.width
  unfolding crc_octets
  octets-lt [] v a h = h
  octets-lt (o ∷ rest) v a h = octets-lt rest _ a.1 (absorbed-lt v o h a.0)

  -- The register after equal octets determines the register before them.
  octets-injective :
      (octets : List ℕ) (u v : ℕ)
      → All (λ o. o < 256) octets
      → u < 2 ^ p.width
      → v < 2 ^ p.width
      → crc_octets p u octets ≡ crc_octets p v octets
      → u ≡ v
  unfolding crc_octets
  octets-injective [] u v a hu hv e = e
  octets-injective (o ∷ rest) u v a hu hv e = bit_xor-injective u v _ (
      absorbed-cancel u v o o hu hv a.0 a.0
        (octets-injective rest _ _ a.1 (absorbed-lt u o hu a.0) (absorbed-lt v o hv a.0) e))

  -- One octet that differs, with the register before it equal, changes the register.
  octet-injective :
      (v a b : ℕ) → v < 2 ^ p.width → a < 256 → b < 256 → absorbed v a ≡ absorbed v b → a ≡ b
  octet-injective v a b h ha hb e = entered-injective a b ha hb (
      mul-injective (entered a) (entered b) (2 ^ (p.width - 8))
        (one-le-pow (p.width - 8) 2 (omega arith))
        (bit_xor-injective_left _ _ v (absorbed-cancel v v a b h h ha hb e)))

  octets-append :
      (xs ys : List ℕ) (v : ℕ) → crc_octets p v (xs ++ ys) ≡ crc_octets p (crc_octets p v xs) ys
  unfolding crc_octets
  octets-append [] ys v = refl
  octets-append (x ∷ xs) ys v = octets-append xs ys _

  -- the value that `_crc` makes of the last register
  abbrev output : ℕ → ℕ
  output value =
      bit_and (bit_xor (if p.reflect_output then reflect value p.width else value) p.xor_output)
        (2 ^ p.width - 1)

  output-injective : (u v : ℕ) → u < 2 ^ p.width → v < 2 ^ p.width → output u ≡ output v → u ≡ v
  output-injective u v hu hv e = elim (Bool-cases p.reflect_output) [
    | inl r ↦
        reflect-injective p.width u v hu hv
          (unmasked _ _ (reflect-lt u p.width) (reflect-lt v p.width) (rw r at e))
    | inr r ↦ unmasked u v hu hv (rw r at e)
  ]
    where
      kept :
          (a : ℕ)
          → a < 2 ^ p.width
          → bit_and (bit_xor a p.xor_output) (2 ^ p.width - 1) ≡ bit_xor a p.xor_output
      kept a h =
          bit_and_mask p.width _ ∙ mod-eq_of_lt (bit_xor-lt p.width a p.xor_output h s.output_fits)

      unmasked :
          (a b : ℕ)
          → a < 2 ^ p.width
          → b < 2 ^ p.width
          → bit_and (bit_xor a p.xor_output) (2 ^ p.width - 1)
            ≡ bit_and (bit_xor b p.xor_output) (2 ^ p.width - 1)
          → a ≡ b
      unmasked a b ha hb h = bit_xor-injective a b p.xor_output (sym (kept a ha) ∙ h ∙ kept b hb)

  -- the register before the first octet
  abbrev start : ℕ
  start = bit_and p.initial (2 ^ p.width - 1)

  start-lt : start < 2 ^ p.width
  start-lt =
      rw (bit_and_mask p.width p.initial) (mod-lt p.initial (one-le-pow p.width 2 (omega arith)))

  -- With parameters of at least eight bits, an odd polynomial and an output mask that fit them, two
  -- messages of octets that differ in exactly one octet have different checksums.
  pub crc-detects :
      (before after : List ℕ) (x y : ℕ)
      → All (λ o. o < 256) before
      → All (λ o. o < 256) after
      → x < 256
      → y < 256
      → x ≢ y
      → crc p (before ++ x ∷ after) ≢ crc p (before ++ y ∷ after)
  unfolding crc crc_octets
  crc-detects before after x y hb ha hx hy ne e =
      let v = crc_octets p start before in
      let hv : v < 2 ^ p.width = octets-lt before start hb start-lt in
      let last : crc_octets p (absorbed v x) after ≡ crc_octets p (absorbed v y) after =
        sym (octets-append before (x ∷ after) start)
        ∙ output-injective _ _
            (octets-lt (before ++ x ∷ after) start (All-append _ before (x ∷ after) hb (hx, ha))
              start-lt)
            (octets-lt (before ++ y ∷ after) start (All-append _ before (y ∷ after) hb (hy, ha))
              start-lt)
            e
        ∙ octets-append before (y ∷ after) start in
      ne (
        octet-injective v x y hv hx hy
          (octets-injective after _ _ ha (absorbed-lt v x hv hx) (absorbed-lt v y hv hy) last))

pub crc8-IsSound : IsSound crc8_parameters
crc8-IsSound = omega arith

pub crc16-IsSound : IsSound crc16_parameters
crc16-IsSound = omega arith

pub crc8_dji-lt : (octets : List ℕ) → crc8_dji octets < 256
unfolding crc8_dji
crc8_dji-lt octets = crc-lt crc8_parameters octets

pub crc16_dji-lt : (octets : List ℕ) → crc16_dji octets < 65536
unfolding crc16_dji
crc16_dji-lt octets = crc-lt crc16_parameters octets
