-- ===== src/Duml/Shape.antt =====
-- A DUML frame by its octets: eleven, the payload, and two octets of checksum.
use openframetap.Prelude.{
  ℕ, suc, ◌+◌, ◌-◌, ◌*◌, ◌/◌, ◌≤◌, bit_and, bit_or, ◌≡◌, refl, sym, ap, ◌∙◌, List, [], ◌∷◌, ◌++◌,
  arith, length, get_or, take, length-append, take-append, drop-append, ltb, le→leb, le→ltb, ok,
  Bool, false, ◌&&◌, ◌==◌, not,
}
use openframetap.Bytes.{two_little, two_big}
use openframetap.Crc.{crc8_dji, crc16_dji}
use openframetap.Duml.{
  DumlFrame, declared_length, frame_of, decode_duml_frame, magic, min_frame_length,
  max_frame_length,
}

-- The decoder accepts what passes its guards.
pub decode_accepts :
    (raw : List ℕ) (allow : Bool) (total : ℕ)
    → 4 ≤ length raw
    → get_or raw 0 0 ≡ magic
    → declared_length raw ≡ total
    → min_frame_length ≤ total
    → total ≤ max_frame_length
    → total ≤ length raw
    → (ltb total (length raw) && not allow) ≡ false
    → decode_duml_frame raw allow ≡ ok (frame_of total (take total raw))
unfolding decode_duml_frame
decode_accepts raw allow total long first declared least most room cut = rw (
  le→ltb (length raw) 4 long,
  first,
  declared,
  le→leb _ _ least,
  le→leb _ _ most,
  le→ltb (length raw) total room,
  cut,
)

-- What the decoder accepts has passed its guards.
pub record Accepted (raw : List ℕ) (allow : Bool) (d : DumlFrame) : Type 0 where
  pub long : 4 ≤ length raw
  pub first : get_or raw 0 0 ≡ magic
  pub least : min_frame_length ≤ declared_length raw
  pub most : declared_length raw ≤ max_frame_length
  pub room : declared_length raw ≤ length raw
  pub cut : (ltb (declared_length raw) (length raw) && not allow) ≡ false
  pub frame : d ≡ frame_of (declared_length raw) (take (declared_length raw) raw)

pub decode-Accepted :
    (raw : List ℕ) (allow : Bool) (d : DumlFrame)
    → decode_duml_frame raw allow ≡ ok d
    → Accepted raw allow d
unfolding decode_duml_frame
decode-Accepted raw allow d e = ground arith

-- The first eleven octets of a frame.
pub record Header : Type 0 where
  pub b0 : ℕ
  pub b1 : ℕ
  pub b2 : ℕ
  pub b3 : ℕ
  pub b4 : ℕ
  pub b5 : ℕ
  pub b6 : ℕ
  pub b7 : ℕ
  pub b8 : ℕ
  pub b9 : ℕ
  pub b10 : ℕ

abbrev pub octets : Header → List ℕ → List ℕ
octets h rest = h.b0 ∷ h.b1 ∷ h.b2 ∷ h.b3 ∷ h.b4 ∷ h.b5 ∷ h.b6 ∷ h.b7 ∷ h.b8 ∷ h.b9 ∷ h.b10 ∷ rest

abbrev pub eleven_more : ℕ → ℕ
eleven_more n = suc (suc (suc (suc (suc (suc (suc (suc (suc (suc (suc n))))))))))

-- The frame that such octets are read as.
abbrev pub shaped : ℕ → Header → List ℕ → ℕ → ℕ → DumlFrame
shaped total h payload c0 c1 = record {
  total_length = total;
  version = h.b2 / 4;
  length_version_raw = h.b2;
  sender = h.b4;
  receiver = h.b5;
  sequence = 256 * h.b6 + h.b7;
  flags = h.b8;
  cmd_set = h.b9;
  cmd_id = h.b10;
  payload = payload;
  crc8_expected = h.b3;
  crc8_actual = crc8_dji (h.b0 ∷ h.b1 ∷ h.b2 ∷ []);
  crc8_valid = h.b3 == crc8_dji (h.b0 ∷ h.b1 ∷ h.b2 ∷ []);
  crc16_expected = c0 + 256 * c1;
  crc16_actual = crc16_dji (octets h payload);
  crc16_valid = c0 + 256 * c1 == crc16_dji (octets h payload);
  raw = octets h (payload ++ c0 ∷ c1 ∷ []);
}

module _ (h : Header) (payload : List ℕ) (c0 c1 : ℕ) where
  abbrev pub whole : List ℕ
  whole = octets h (payload ++ c0 ∷ c1 ∷ [])

  pub length-whole : length whole ≡ 13 + length payload
  length-whole = omega (arith, length-append payload (c0 ∷ c1 ∷ []))

  two_less : length whole - 2 ≡ eleven_more (length payload)
  two_less = omega (arith, length-append payload (c0 ∷ c1 ∷ []))

  pub frame_of-shape : (total : ℕ) → frame_of total whole ≡ shaped total h payload c0 c1
  unfolding frame_of
  frame_of-shape total = rw (
    two_less,
    fewer,
    take-append payload (c0 ∷ c1 ∷ []) (length payload) refl,
    drop-append payload (c0 ∷ c1 ∷ []) (length payload) refl,
    two_little c0 c1,
    two_big h.b6 h.b7,
  )
    where
      fewer : eleven_more (length payload) - 11 ≡ length payload
      fewer = omega arith

  -- What follows the frame is cut off, if trailing octets are allowed.
  pub decode-shape :
      (rest : List ℕ) (allow : Bool)
      → h.b0 ≡ magic
      → bit_or h.b1 (bit_and h.b2 0x03 * 256) ≡ 13 + length payload
      → length payload ≤ 1010
      → (ltb (13 + length payload) (length (whole ++ rest)) && not allow) ≡ false
      → decode_duml_frame (whole ++ rest) allow ≡ ok (shaped (13 + length payload) h payload c0 c1)
  unfolding declared_length
  decode-shape rest allow e0 ed small cut =
      decode_accepts (whole ++ rest) allow (13 + length payload)
        (omega (arith, length-append whole rest, length-whole)) e0 ed (omega arith) (omega arith)
        (omega (arith, length-append whole rest, length-whole)) cut
      ∙ ap ok (
          ap (frame_of (13 + length payload))
            (take-append whole rest (13 + length payload) (sym length-whole))
          ∙ frame_of-shape (13 + length payload))
