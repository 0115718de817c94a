-- ===== src/Duml/RoundTrip.antt =====
-- protocol/duml.py: decoding undoes encoding, and encoding undoes decoding of valid frames.
use openframetap.Prelude.{
  ◌⊎◌, ℕ, ◌+◌, ◌*◌, ◌/◌, ◌%◌, ◌≤◌, ◌<◌, bit_and, bit_or, ◌≡◌, refl, sym, ap, ◌∙◌, List, [], ◌++◌,
  arith, length, ltb, le→ltb, ok, Bool, true, false, ==_iff, ==_refl, not, ◌&&◌, inl, inr,
  append-nil,
}
use openframetap.Bits.{bit_and_mask, bit_or_fields, bit_or_fields_low}
use openframetap.Bytes.{Within}
use openframetap.Crc.Detect.{crc16_dji-lt}
use openframetap.Duml.{
  DumlFrame, DumlFields, decode_duml_frame, encode_duml_frame, field_ranges, frame_length,
  max_frame_length,
}
use openframetap.Duml.Shape.{octets, whole, length-whole, shaped, decode-shape}
use openframetap.Duml.Wire.{header_of, checksum_of, Encoded, encode_inverted}

-- A decoded frame that carries the fields, with both checksums valid.
pub record Carries (f : DumlFields) (d : DumlFrame) : Type 0 where
  pub total_length : d.total_length ≡ 13 + length f.payload
  pub version : d.version ≡ f.version
  pub sender : d.sender ≡ f.sender
  pub receiver : d.receiver ≡ f.receiver
  pub sequence : d.sequence ≡ f.sequence
  pub flags : d.flags ≡ f.flags
  pub cmd_set : d.cmd_set ≡ f.cmd_set
  pub cmd_id : d.cmd_id ≡ f.cmd_id
  pub payload : d.payload ≡ f.payload
  pub crc8_valid : d.crc8_valid ≡ true
  pub crc16_valid : d.crc16_valid ≡ true

-- The eleven octets that the encoder writes say its length, version and sequence number.
length_field :
    (v n : ℕ)
    → v ≤ 63
    → n < 1024
    → bit_or (bit_and n 0xFF) (bit_and (bit_or (v * 4) (n / 256)) 0x03 * 256) ≡ n
length_field v n hv hn =
    rw
      (
        bit_and_mask 8 n,
        bit_or_fields 2 v (n / 256) (omega arith),
        bit_and_mask 2 (v * 4 + n / 256),
      )
      (bit_or_fields_low 8 ((v * 4 + n / 256) % 4) (n % 256) (omega arith) ∙ omega arith)

wire-Carries :
    (f : DumlFields)
    → Within (field_ranges f)
    → frame_length f ≤ max_frame_length
    → Carries f (
        shaped
          (13 + length f.payload)
          (header_of f)
          f.payload
          (checksum_of f % 256)
          (checksum_of f / 256 % 256))
wire-Carries f w fits = record {
  total_length = refl;
  version = rw (bit_or_fields 2 f.version (frame_length f / 256) (omega arith)) (omega arith);
  sender = refl;
  receiver = refl;
  sequence = rw (bit_and_mask 8 (f.sequence / 256), bit_and_mask 8 f.sequence) (omega arith);
  flags = refl;
  cmd_set = refl;
  cmd_id = refl;
  payload = refl;
  crc8_valid = ==_refl _;
  crc16_valid = (==_iff _ _).1 (omega (arith, crc16_dji-lt (octets (header_of f) f.payload)));
}

-- Decoding the image of the encoder gives a frame with the fields that were encoded and with two
-- valid checksums, whose raw octets are that image. Octets may follow if they are allowed.
pub decode-encode :
    (f : DumlFields) (raw rest : List ℕ) (allow : Bool)
    → encode_duml_frame f ≡ ok raw
    → (rest ≡ []) ⊎ (allow ≡ true)
    → (d : DumlFrame) × (decode_duml_frame (raw ++ rest) allow ≡ ok d) × Carries f d × (d.raw ≡ raw)
decode-encode f raw rest allow e end =
    let enc : Encoded f raw = encode_inverted f raw e in
    let (c0, c1) : ℕ × ℕ = (checksum_of f % 256, checksum_of f / 256 % 256) in
    (
      shaped (13 + length f.payload) (header_of f) f.payload c0 c1,
      ap (λ t. decode_duml_frame (t ++ rest) allow) enc.image
          ∙ decode-shape (header_of f) f.payload c0 c1 rest allow refl
              (length_field f.version (frame_length f) (omega (arith, enc.ranges))
                (omega (arith, enc.fits)))
              (omega (arith, enc.fits)) (ended f rest allow c0 c1 end),
      wire-Carries f enc.ranges enc.fits,
      sym enc.image,
    )
  where
    ended :
        (f : DumlFields) (rest : List ℕ) (allow : Bool) (c0 c1 : ℕ)
        → (rest ≡ []) ⊎ (allow ≡ true)
        → (ltb (13 + length f.payload) (length (whole (header_of f) f.payload c0 c1 ++ rest))
            && not allow)
          ≡ false
    ended f rest allow c0 c1 (inl e) = rw (
      e,
      append-nil,
      length-whole (header_of f) f.payload c0 c1,
      le→ltb (13 + length f.payload) (13 + length f.payload) (omega arith),
    )
    ended f rest allow c0 c1 (inr e) = ground arith
