-- ===== src/Duml/Reencode.antt =====
-- protocol/duml.py: encoding the fields of a valid frame gives its octets back.
use openframetap.Prelude.{
  take, take_all, subst⁻¹, ap₂, ℕ, ◌+◌, ◌*◌, ◌/◌, ◌%◌, ◌≤◌, ◌<◌, bit_and, bit_or, ◌≡◌, sym, ap, ◌∙◌,
  List, [], ◌∷◌, ◌++◌, arith, length, ltb, ok, true, false, ◌==◌, ==_iff, ◌&&◌,
}
use openframetap.Bits.{bit_and_mask, bit_or_fields, bit_or_fields_low}
use openframetap.Bytes.{IsBytes}
use openframetap.Crc.{crc8_dji, crc16_dji}
use openframetap.Duml.{
  frame_of, declared_length, DumlFrame, DumlFields, decode_duml_frame, encode_duml_frame, magic,
}
use openframetap.Duml.Shape.{
  frame_of-shape, Header, octets, whole, length-whole, shaped, decode-Accepted, Accepted,
}
use openframetap.Duml.Wire.{header_of, checksum_of, encode-Within, Parts, Parts-of}

-- The arguments of the encoder that a frame stands for.
abbrev pub fields_of : DumlFrame → DumlFields
fields_of d = record {
  sender = d.sender;
  receiver = d.receiver;
  sequence = d.sequence;
  flags = d.flags;
  cmd_set = d.cmd_set;
  cmd_id = d.cmd_id;
  payload = d.payload;
  version = d.version;
}

tail-IsBytes : (p : List ℕ) (c0 c1 : ℕ) → IsBytes (p ++ c0 ∷ c1 ∷ []) → (c0 < 256) × (c1 < 256)
tail-IsBytes [] c0 c1 h = (h.0, h.1.0)
tail-IsBytes (x ∷ p) c0 c1 h = tail-IsBytes p c0 c1 h.1

-- The header that the encoder writes for a shaped frame with a valid first checksum is its own.
header-same :
    (h : Header) (payload : List ℕ) (c0 c1 : ℕ)
    → IsBytes (octets h (payload ++ c0 ∷ c1 ∷ []))
    → h.b0 ≡ magic
    → bit_or h.b1 (bit_and h.b2 0x03 * 256) ≡ 13 + length payload
    → h.b3 ≡ crc8_dji (h.b0 ∷ h.b1 ∷ h.b2 ∷ [])
    → header_of (fields_of (shaped (13 + length payload) h payload c0 c1)) ≡ h
header-same h payload c0 c1 bytes e0 ed e3 =
    let declared : h.b2 % 4 * 256 + h.b1 ≡ 13 + length payload =
      sym (bit_or_fields_low 8 (h.b2 % 4) h.b1 (omega arith))
      ∙ ap (λ (t : ℕ). bit_or h.b1 (t * 256)) (sym (bit_and_mask 2 h.b2))
      ∙ ed in
    let e1 : bit_and (13 + length payload) 0xFF ≡ h.b1 = bit_and_mask 8 _ ∙ omega arith in
    let e2 : bit_or (h.b2 / 4 * 4) ((13 + length payload) / 256) ≡ h.b2 =
      bit_or_fields 2 (h.b2 / 4) ((13 + length payload) / 256) (omega arith) ∙ omega arith in
    let e6 : bit_and ((256 * h.b6 + h.b7) / 256) 0xFF ≡ h.b6 = bit_and_mask 8 _ ∙ omega arith in
    let e7 : bit_and (256 * h.b6 + h.b7) 0xFF ≡ h.b7 = bit_and_mask 8 _ ∙ omega arith in
    rw (e1, e2, e6, e7, ← e0, ← e3)

shaped-encode :
    (h : Header) (payload : List ℕ) (c0 c1 : ℕ)
    → IsBytes (octets h (payload ++ c0 ∷ c1 ∷ []))
    → h.b0 ≡ magic
    → bit_or h.b1 (bit_and h.b2 0x03 * 256) ≡ 13 + length payload
    → length payload ≤ 1010
    → h.b3 ≡ crc8_dji (h.b0 ∷ h.b1 ∷ h.b2 ∷ [])
    → c0 + 256 * c1 ≡ crc16_dji (octets h payload)
    → encode_duml_frame (fields_of (shaped (13 + length payload) h payload c0 c1))
      ≡ ok (whole h payload c0 c1)
shaped-encode h payload c0 c1 bytes e0 ed fits e3 e16 =
    let f = fields_of (shaped (13 + length payload) h payload c0 c1) in
    let tail : (c0 < 256) × (c1 < 256) = tail-IsBytes payload c0 c1 bytes.1.1.1.1.1.1.1.1.1.1.1 in
    let same : header_of f ≡ h = header-same h payload c0 c1 bytes e0 ed e3 in
    let sum : checksum_of f ≡ c0 + 256 * c1 =
      ap (λ t. crc16_dji (octets t payload)) same ∙ sym e16 in
    let low : checksum_of f % 256 ≡ c0 = omega arith in
    let high : checksum_of f / 256 % 256 ≡ c1 = omega arith in
    encode-Within f (omega arith) (omega arith)
    ∙ ap ok (
        ap₂ (λ lo hi. whole (header_of f) payload lo hi) low high
        ∙ ap (λ t. whole t payload c0 c1) same)

whole-encode :
    (h : Header) (payload : List ℕ) (c0 c1 : ℕ) (d : DumlFrame)
    → IsBytes (whole h payload c0 c1)
    → decode_duml_frame (whole h payload c0 c1) false ≡ ok d
    → d.crc8_valid ≡ true
    → d.crc16_valid ≡ true
    → encode_duml_frame (fields_of d) ≡ ok (whole h payload c0 c1)
unfolding declared_length
whole-encode h payload c0 c1 d bytes e v8 v16 =
    let raw : List ℕ = whole h payload c0 c1 in
    let acc : Accepted raw false d = decode-Accepted raw false d e in
    let n = 13 + length payload in
    let total : declared_length raw ≡ n =
      exact raw acc.room acc.cut ∙ length-whole h payload c0 c1 in
    let shape : d ≡ shaped n h payload c0 c1 =
      acc.frame
      ∙ ap (λ t. frame_of t (take t raw)) total
      ∙ ap (frame_of n) (take_all raw n (omega (arith, length-whole h payload c0 c1)))
      ∙ frame_of-shape h payload c0 c1 n in
    let valid8 : (h.b3 == crc8_dji (h.b0 ∷ h.b1 ∷ h.b2 ∷ [])) ≡ true =
      ap (λ (t : DumlFrame). t.crc8_valid) (sym shape) ∙ v8 in
    let valid16 : (c0 + 256 * c1 == crc16_dji (octets h payload)) ≡ true =
      ap (λ (t : DumlFrame). t.crc16_valid) (sym shape) ∙ v16 in
    ap (λ t. encode_duml_frame (fields_of t)) shape
    ∙ shaped-encode h payload c0 c1 bytes acc.first total (omega (arith, acc.most, total))
        ((==_iff _ _).0 valid8) ((==_iff _ _).0 valid16)
  where
    exact :
        (r : List ℕ)
        → declared_length r ≤ length r
        → (ltb (declared_length r) (length r) && true) ≡ false
        → declared_length r ≡ length r
    exact r room cut = ground arith

-- Encoding the fields of a frame that was decoded from octets with no rest, and whose checksums
-- are both valid, gives these octets back.
pub encode-decode :
    (raw : List ℕ) (d : DumlFrame)
    → IsBytes raw
    → decode_duml_frame raw false ≡ ok d
    → d.crc8_valid ≡ true
    → d.crc16_valid ≡ true
    → encode_duml_frame (fields_of d) ≡ ok raw
encode-decode raw d bytes e v8 v16 = from_parts (Parts-of raw (accepted_long raw d e)) bytes e
  where
    accepted_long : (r : List ℕ) (d : DumlFrame) → decode_duml_frame r false ≡ ok d → 13 ≤ length r
    accepted_long r d e = omega (arith, decode-Accepted r false d e)

    from_parts :
        {r : List ℕ}
        → Parts r
        → IsBytes r
        → decode_duml_frame r false ≡ ok d
        → encode_duml_frame (fields_of d) ≡ ok r
    from_parts parts =
        subst⁻¹
          (λ t.
            IsBytes t → decode_duml_frame t false ≡ ok d → encode_duml_frame (fields_of d) ≡ ok t)
          parts.joined
          (λ b dec. whole-encode parts.header parts.payload parts.c0 parts.c1 d b dec v8 v16)
