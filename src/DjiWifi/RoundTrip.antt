-- ===== src/DjiWifi/RoundTrip.antt =====
-- protocol/dji_wifi.py: parsing undoes encoding of the standard envelope.
use openframetap.DjiWifi.Header.{read_back, basic_wire, encode_basic-Written, Written, parse_wire}
use openframetap.Prelude.{
  le→ltb, take_all, take, sym, ◌∙◌, length-append, ==_iff, Result-cases, ◌/◌, ◌%◌, Option-cases,
  inl, true, refl, inr, ◌==◌, get_or, arith, false, [], Bool-cases, ◌∷◌, ◌+◌, ◌++◌, ok, ◌≡◌, length,
  ℕ, List,
}
use openframetap.DjiWifi.Envelope.{
  envelope_of, word_ranges, basic_of, parse_envelope, encode_envelope, Envelope,
}
use openframetap.Bytes.{
  first_outside-none, from-to_little, first_outside, from_little, Within, to_little,
}
use openframetap.DjiWifi.{xor_all, parse_basic, encode_basic, basic_ranges, BasicHeader}

abbrev pub behind_basic : Envelope → List ℕ
behind_basic e =
    to_little 2 e.peer_sequence
    ++ to_little 2 e.sequence_echo
    ++ e.reserved_12_15
    ++ to_little 2 e.message_sequence
    ++ (e.delivery_flags ∷ e.reserved_19 ∷ [])
    ++ e.payload

-- The octets of an envelope with its four reserved ones.
abbrev pub envelope_wire : Envelope → List ℕ
envelope_wire e = basic_wire (basic_of e) ++ behind_basic e

pub record Sealed (e : Envelope) (raw : List ℕ) : Type 0 where
  pub total : e.total_length ≡ 20 + length e.payload
  pub four : length e.reserved_12_15 ≡ 4
  pub words : Within (word_ranges e)
  pub ranges : Within (basic_ranges (basic_of e))
  pub image : raw ≡ envelope_wire e

pub encode_envelope-Sealed :
    (e : Envelope) (raw : List ℕ) → encode_envelope e ≡ ok raw → Sealed e raw
unfolding encode_envelope to_little
encode_envelope-Sealed e raw h = elim (Bool-cases (e.total_length == 20 + length e.payload)) [
  | inr bad ↦ cc (rw bad at h)
  | inl total ↦ elim (Bool-cases (length e.reserved_12_15 == 4)) [
    | inr bad ↦ cc (rw (total, bad) at h)
    | inl four ↦ elim (Option-cases (first_outside (word_ranges e))) [
      | inr (bad, found) ↦ cc (rw (total, four, found) at h)
      | inl fine ↦ elim (Result-cases (encode_basic (basic_of e))) [
        | inr (bad, failed) ↦ cc (rw (total, four, fine, failed) at h)
        | inl (basic, done) ↦
            let w : Written (basic_of e) basic = encode_basic-Written (basic_of e) basic done in
            record {
              total = (==_iff _ _).0 total;
              four = (==_iff _ _).0 four;
              words = first_outside-none (word_ranges e) fine;
              ranges = w.ranges;
              image = cc (rw (total, four, fine, done) at h, w.image);
            }
      ]
    ]
  ]
]

four_items :
    (xs : List ℕ)
    → length xs ≡ 4
    → (a : ℕ) × (b : ℕ) × (c : ℕ) × (d : ℕ) × (xs ≡ a ∷ b ∷ c ∷ d ∷ [])
four_items (a ∷ b ∷ c ∷ d ∷ []) h = (a, b, c, d, refl)
four_items _ h = absurd (omega arith)

length-wire :
    (e : Envelope) → length e.reserved_12_15 ≡ 4 → length (envelope_wire e) ≡ 20 + length e.payload
unfolding to_little
length-wire e four =
    let m : List ℕ = e.message_sequence % 256 ∷ e.message_sequence / 256 % 256 ∷ [] in
    let flags : List ℕ = e.delivery_flags ∷ e.reserved_19 ∷ [] in
    omega (
      arith,
      four,
      length-append e.reserved_12_15 m,
      length-append (e.reserved_12_15 ++ m) flags,
      length-append ((e.reserved_12_15 ++ m) ++ flags) e.payload,
    )

-- What is read of the octets behind the basic header.
read_envelope :
    (e : Envelope) (basic : BasicHeader) (a b c d : ℕ)
    → e.reserved_12_15 ≡ a ∷ b ∷ c ∷ d ∷ []
    → Within (word_ranges e)
    → envelope_of basic (envelope_wire e) ≡ record e {
      total_length = basic.total_length;
      format_nibble = basic.format_nibble;
      session_id = basic.session_id;
      transport_sequence = basic.transport_sequence;
      wh_type = basic.wh_type;
      checksum = basic.checksum;
      checksum_valid = basic.checksum_valid;
    }
unfolding to_little
read_envelope e basic a b c d four w =
    let peer : from_little (e.peer_sequence % 256 ∷ e.peer_sequence / 256 % 256 ∷ [])
        ≡ e.peer_sequence =
      from-to_little e.peer_sequence (omega (arith, w)) in
    let echo : from_little (e.sequence_echo % 256 ∷ e.sequence_echo / 256 % 256 ∷ [])
        ≡ e.sequence_echo =
      from-to_little e.sequence_echo (omega (arith, w)) in
    let message : from_little (e.message_sequence % 256 ∷ e.message_sequence / 256 % 256 ∷ [])
        ≡ e.message_sequence =
      from-to_little e.message_sequence (omega (arith, w)) in
    rw (four, peer, echo, message)

-- Parsing the octets of an encoded envelope gives all its fields back, with the checksum that was
-- written, which is valid.
pub parse-encode_envelope :
    (e : Envelope) (raw : List ℕ)
    → encode_envelope e ≡ ok raw
    → parse_envelope raw false ≡ ok (record e { checksum = get_or raw 7 0; checksum_valid = true })
unfolding parse_envelope to_little xor_all
parse-encode_envelope e raw h =
    let s : Sealed e raw = encode_envelope-Sealed e raw h in
    let (a, b, c, d, four) = four_items e.reserved_12_15 s.four in
    let n = e.total_length in
    let size : length (envelope_wire e) ≡ n = length-wire e s.four ∙ sym s.total in
    let basic : parse_basic (envelope_wire e) ≡ ok (read_back (basic_of e)) =
      parse_wire (basic_of e) (behind_basic e) s.ranges (omega (arith, s.total)) in
    let cut : take n (envelope_wire e) ≡ envelope_wire e =
      take_all (envelope_wire e) n (omega arith) in
    rw (
      s.image,
      basic,
      size,
      le→ltb n 20 (omega (arith, s.total)),
      le→ltb n n (omega arith),
      cut,
      read_envelope e (read_back (basic_of e)) a b c d four s.words,
    )
