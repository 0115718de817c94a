-- ===== src/Duml/Wire.antt =====
-- protocol/duml.py: the octets that the encoder writes, and frames taken apart into octets.
use openframetap.Prelude.{
  ℕ, ◌*◌, ◌/◌, ◌%◌, ◌≤◌, bit_and, bit_or, ◌≡◌, refl, List, [], ◌∷◌, ◌++◌, arith, length, ltb,
  le→ltb, ltb→le, ok, Bool-cases, Option-cases, inl, inr,
}
use openframetap.Bytes.{to_little, first_outside, first_outside-none, none-first_outside, Within}
use openframetap.Crc.{crc8_dji, crc16_dji}
use openframetap.Duml.{
  DumlFields, encode_duml_frame, field_ranges, frame_length, magic, max_frame_length,
}
use openframetap.Duml.Shape.{Header, octets, whole}

-- The first octets that the encoder writes.
abbrev pub header_of : DumlFields → Header
header_of f =
    let b1 = bit_and (frame_length f) 0xFF in
    let b2 = bit_or (f.version * 4) (frame_length f / 256) in
    record {
      b0 = magic;
      b1 = b1;
      b2 = b2;
      b3 = crc8_dji (magic ∷ b1 ∷ b2 ∷ []);
      b4 = f.sender;
      b5 = f.receiver;
      b6 = bit_and (f.sequence / 256) 0xFF;
      b7 = bit_and f.sequence 0xFF;
      b8 = f.flags;
      b9 = f.cmd_set;
      b10 = f.cmd_id;
    }

abbrev pub checksum_of : DumlFields → ℕ
checksum_of f = crc16_dji (octets (header_of f) f.payload)

abbrev pub wire : DumlFields → List ℕ
wire f = whole (header_of f) f.payload (checksum_of f % 256) (checksum_of f / 256 % 256)

pub record Encoded (f : DumlFields) (raw : List ℕ) : Type 0 where
  pub ranges : Within (field_ranges f)
  pub fits : frame_length f ≤ max_frame_length
  pub image : raw ≡ wire f

pub encode_inverted : (f : DumlFields) (raw : List ℕ) → encode_duml_frame f ≡ ok raw → Encoded f raw
unfolding encode_duml_frame to_little
encode_inverted f raw e = elim (Option-cases (first_outside (field_ranges f))) [
  | inl fine ↦ elim (Bool-cases (ltb max_frame_length (frame_length f))) [
    | inl long ↦ cc (rw (fine, long) at e)
    | inr short ↦ record {
      ranges = first_outside-none (field_ranges f) fine;
      fits = ltb→le _ _ short;
      image = cc (rw (fine, short) at e);
    }
  ]
  | inr (bad, found) ↦ cc (rw found at e)
]

pub encode-Within :
    (f : DumlFields)
    → Within (field_ranges f)
    → frame_length f ≤ max_frame_length
    → encode_duml_frame f ≡ ok (wire f)
unfolding encode_duml_frame to_little
encode-Within f ranges fits =
    rw (none-first_outside (field_ranges f) ranges, le→ltb max_frame_length (frame_length f) fits)

-- A list of two or more ends in two items.
ends_in_two :
    (xs : List ℕ) → 2 ≤ length xs → (p : List ℕ) × (c0 : ℕ) × (c1 : ℕ) × (xs ≡ p ++ c0 ∷ c1 ∷ [])
ends_in_two [] h = absurd (omega arith)
ends_in_two (x ∷ []) h = absurd (omega arith)
ends_in_two (x ∷ y ∷ []) h = ([], x, y, refl)
ends_in_two (x ∷ y ∷ z ∷ rest) h =
    let (p, c0, c1, e) = ends_in_two (y ∷ z ∷ rest) (omega arith) in (x ∷ p, c0, c1, cc)

-- Thirteen or more octets are a header, a payload and two octets of checksum.
pub record Parts (raw : List ℕ) : Type 0 where
  pub header : Header
  pub payload : List ℕ
  pub c0 : ℕ
  pub c1 : ℕ
  pub joined : raw ≡ whole header payload c0 c1

pub Parts-of : (raw : List ℕ) → 13 ≤ length raw → Parts raw
Parts-of (b0 ∷ b1 ∷ b2 ∷ b3 ∷ b4 ∷ b5 ∷ b6 ∷ b7 ∷ b8 ∷ b9 ∷ b10 ∷ rest) h =
    let (p, c0, c1, e) = ends_in_two rest (omega arith) in
    record {
      header = record {
        b0 = b0;
        b1 = b1;
        b2 = b2;
        b3 = b3;
        b4 = b4;
        b5 = b5;
        b6 = b6;
        b7 = b7;
        b8 = b8;
        b9 = b9;
        b10 = b10;
      };
      payload = p;
      c0 = c0;
      c1 = c1;
      joined = cc;
    }
Parts-of _ h = absurd (omega arith)
