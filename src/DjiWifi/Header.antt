-- ===== src/DjiWifi/Header.antt =====
-- protocol/dji_wifi.py: parsing undoes encoding of the basic header.
use openframetap.Prelude.{
  bit_and, bit_xor, bit_or, [], get_or, ok, List, length, refl, ==_refl, le→ltb, ◌/◌, ◌∙◌, ◌%◌, inr,
  arith, ◌+◌, inl, ◌*◌, Option-cases, ◌∷◌, ◌≤◌, ◌++◌, true, ℕ, ◌≡◌,
}
use openframetap.DjiWifi.{
  basic_ranges, header_xor_checksum, first_seven_of, xor_all, BasicHeader, parse_basic,
  encode_basic,
}
use openframetap.Bytes.{
  from-to_little, first_outside-none, first_outside, none-first_outside, to_little, from_little,
  Within,
}
use openframetap.Bits.{bit_xor_self, bit_and_mask, bit_or_fields}

-- The octets that the encoder writes.
abbrev pub sum_of : BasicHeader → ℕ
sum_of h = xor_all 0 (first_seven_of h)

abbrev pub basic_wire : BasicHeader → List ℕ
basic_wire h = first_seven_of h ++ sum_of h ∷ []

pub record Written (h : BasicHeader) (raw : List ℕ) : Type 0 where
  pub ranges : Within (basic_ranges h)
  pub image : raw ≡ basic_wire h

pub encode_basic-Written :
    (h : BasicHeader) (raw : List ℕ) → encode_basic h ≡ ok raw → Written h raw
unfolding encode_basic to_little header_xor_checksum
encode_basic-Written h raw e = elim (Option-cases (first_outside (basic_ranges h))) [
  | inl fine ↦ record {
    ranges = first_outside-none (basic_ranges h) fine;
    image = cc (rw fine at e);
  }
  | inr (bad, found) ↦ cc (rw found at e)
]

-- The header within its ranges is written.
pub encode_basic-Within :
    (h : BasicHeader) → Within (basic_ranges h) → encode_basic h ≡ ok (basic_wire h)
unfolding encode_basic to_little header_xor_checksum
encode_basic-Within h w = rw (none-first_outside (basic_ranges h) w)

-- What a parser reads: the header with the checksum that was written, and valid.
abbrev pub read_back : BasicHeader → BasicHeader
read_back h = record h { checksum = sum_of h; checksum_valid = true }

pub parse_wire :
    (h : BasicHeader) (rest : List ℕ)
    → Within (basic_ranges h)
    → 8 ≤ h.total_length
    → parse_basic (basic_wire h ++ rest) ≡ ok (read_back h)
unfolding parse_basic to_little header_xor_checksum
parse_wire h rest w least =
    let total : h.total_length ≤ 4095 = w.0 in
    let f = h.format_nibble in
    let n = h.format_nibble * 4096 + h.total_length in
    let joined : bit_or (f * 4096) h.total_length ≡ n =
      bit_or_fields 12 f h.total_length (omega arith) in
    let two : from_little (n % 256 ∷ n / 256 % 256 ∷ []) ≡ n =
      from-to_little n (omega (arith, w)) in
    let session : from_little (h.session_id % 256 ∷ h.session_id / 256 % 256 ∷ []) ≡ h.session_id =
      from-to_little h.session_id (omega (arith, w)) in
    let sequence : from_little (h.transport_sequence % 256 ∷ h.transport_sequence / 256 % 256 ∷ [])
        ≡ h.transport_sequence =
      from-to_little h.transport_sequence (omega (arith, w)) in
    let low : bit_and n 4095 ≡ h.total_length = bit_and_mask 12 n ∙ omega (arith, w) in
    let high : n / 4096 ≡ f = omega (arith, w) in
    rw (
      le→ltb (length (basic_wire h ++ rest)) 8 (omega arith),
      joined,
      two,
      session,
      sequence,
      low,
      high,
      le→ltb _ 8 least,
      ==_refl,
    )

-- The exclusive or of octets followed by their own exclusive or is zero.
xor_all-append : (v : ℕ) (xs ys : List ℕ) → xor_all v (xs ++ ys) ≡ xor_all (xor_all v xs) ys
unfolding xor_all
xor_all-append v [] ys = refl
xor_all-append v (x ∷ xs) ys = xor_all-append (bit_xor v x) xs ys

cancels : (octets : List ℕ) → xor_all 0 (octets ++ xor_all 0 octets ∷ []) ≡ 0
unfolding xor_all
cancels octets = xor_all-append 0 octets (xor_all 0 octets ∷ []) ∙ bit_xor_self (xor_all 0 octets)

-- Parsing an encoded header, whatever octets follow it, gives its fields back with the checksum that
-- was written, which is valid and makes all eight octets cancel out under exclusive or. The length
-- that is encoded is at least that of the header.
pub parse-encode_basic :
    (h : BasicHeader) (raw rest : List ℕ)
    → encode_basic h ≡ ok raw
    → 8 ≤ h.total_length
    → (parse_basic (raw ++ rest)
        ≡ ok (record h { checksum = get_or raw 7 0; checksum_valid = true }))
      × (xor_all 0 raw ≡ 0)
unfolding to_little xor_all
parse-encode_basic h raw rest e least =
    let written : Written h raw = encode_basic-Written h raw e in
    (
      rw (written.image) (parse_wire h rest written.ranges least),
      rw (written.image) (cancels (first_seven_of h)),
    )
