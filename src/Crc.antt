-- ===== src/Crc.antt =====
-- protocol/crc.py: the bit reflection and the CRC loop with explicit parameters.
pub mod Mirror
mod Register
pub mod Detect
use openframetap.Prelude.{
  ℕ, zero, suc, ◌+◌, ◌-◌, ◌*◌, ◌^◌, bit_and, bit_or, bit_xor, Bool, true, List, [], ◌∷◌, ◌==◌,
  if◌then◌else◌, not,
}

-- `_reflect`: the loop over `bit`, with `left` rounds to go.
reflect_rounds : ℕ → ℕ → ℕ → ℕ → ℕ → ℕ
reflect_rounds zero bit value width reflected = reflected
reflect_rounds (suc left) bit value width reflected =
    reflect_rounds left (bit + 1) value width
      (if bit_and value (2 ^ bit) == 0 then reflected else bit_or reflected (2 ^ (width - 1 - bit)))

unfoldable pub reflect : ℕ → ℕ → ℕ
unfolding reflect_rounds
reflect value width = reflect_rounds width 0 value width 0

-- One round of the inner loop of `_crc`: a shift out of the top bit.
shift_round : ℕ → ℕ → ℕ → ℕ
shift_round width polynomial value =
    if bit_and value (2 ^ (width - 1)) == 0
    then bit_and (value * 2) (2 ^ width - 1)
    else bit_and (bit_xor (value * 2) polynomial) (2 ^ width - 1)

pub shift_rounds : ℕ → ℕ → ℕ → ℕ → ℕ
unfolding shift_round
shift_rounds zero width polynomial value = value
shift_rounds (suc n) width polynomial value =
    shift_rounds n width polynomial (shift_round width polynomial value)

-- The keyword arguments of `_crc`.
pub record CrcParameters : Type 0 where
  pub width : ℕ
  pub polynomial : ℕ
  pub initial : ℕ
  pub reflect_input : Bool
  pub reflect_output : Bool
  pub xor_output : ℕ

-- The outer loop of `_crc` over the octets.
crc_octets : CrcParameters → ℕ → List ℕ → ℕ
unfolding shift_rounds reflect
crc_octets p value [] = value
crc_octets p value (octet ∷ rest) =
    let o = if p.reflect_input then reflect octet 8 else octet in
    crc_octets p (shift_rounds 8 p.width p.polynomial (bit_xor value (o * 2 ^ (p.width - 8)))) rest

unfoldable pub crc : CrcParameters → List ℕ → ℕ
unfolding crc_octets
crc p octets =
    let value = crc_octets p (bit_and p.initial (2 ^ p.width - 1)) octets in
    let out = if p.reflect_output then reflect value p.width else value in
    bit_and (bit_xor out p.xor_output) (2 ^ p.width - 1)

abbrev pub crc8_parameters : CrcParameters
crc8_parameters = record {
  width = 8;
  polynomial = 0x31;
  initial = 0xEE;
  reflect_input = true;
  reflect_output = true;
  xor_output = 0;
}

abbrev pub crc16_parameters : CrcParameters
crc16_parameters = record {
  width = 16;
  polynomial = 0x1021;
  initial = 0x496C;
  reflect_input = true;
  reflect_output = true;
  xor_output = 0;
}

unfoldable pub crc8_dji : List ℕ → ℕ
unfolding crc
crc8_dji octets = crc crc8_parameters octets

unfoldable pub crc16_dji : List ℕ → ℕ
unfolding crc
crc16_dji octets = crc crc16_parameters octets
