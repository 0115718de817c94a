-- ===== src/DjiWifi/Policy.antt =====
-- protocol/dji_wifi.py: what the sequencer builds passes the operator policy and can be encoded.
use openframetap.DjiWifi.Sequencer.{Sequencer, build}
use openframetap.DjiWifi.Envelope.{
  basic_of, word_ranges, operator_command, Envelope, validate_operator_policy, encode_envelope,
}
use openframetap.DjiWifi.RoundTrip.{envelope_wire}
use openframetap.DjiWifi.Header.{basic_wire, encode_basic-Within}
use openframetap.Prelude.{
  none, le→ltb, ◌%◌, le→leb, arith, [], ==_refl, ◌∷◌, ok, ◌≡◌, true, bit_or, length, ◌+◌, ℕ, ◌≤◌,
  bit_and, List,
}
use openframetap.Bytes.{to_little, none-first_outside, first_outside, same_bytes}
use openframetap.Bits.{bit_and_mask, bit_or_fields}
use openframetap.DjiWifi.{encode_basic}

pub record IsSequencer (s : Sequencer) : Type 0 where
  pub session_id : s.session_id ≤ 0xFFFF
  pub transport : s.next_transport_sequence ≤ 0xFFFF
  pub peer : s.peer_sequence ≤ 0xFFFF
  pub counter : s.next_message_counter ≤ 0xFF

-- What `build` makes.
abbrev pub built : Sequencer → List ℕ → Envelope
built s payload = record {
  total_length = 20 + length payload;
  format_nibble = 8;
  session_id = s.session_id;
  transport_sequence = s.next_transport_sequence;
  wh_type = 5;
  checksum = 0;
  checksum_valid = true;
  peer_sequence = s.peer_sequence;
  sequence_echo = s.next_transport_sequence;
  reserved_12_15 = 0 ∷ 0 ∷ 0 ∷ 0 ∷ [];
  message_sequence = bit_or 0x0100 s.next_message_counter;
  delivery_flags = 0;
  reserved_19 = 0;
  payload = payload;
}

abbrev pub next_of : Sequencer → Sequencer
next_of s = record s {
  next_transport_sequence = bit_and (s.next_transport_sequence + 8) 0xFFFF;
  next_message_counter = bit_and (s.next_message_counter + 1) 0xFF;
}

module _ (s : Sequencer) (payload : List ℕ) where
  passes : validate_operator_policy (built s payload) ≡ ok tt
  unfolding validate_operator_policy same_bytes
  passes = rw (==_refl s.next_transport_sequence)

  module _ (w : IsSequencer s) (fits : length payload ≤ 4075) where
    builds : build s payload ≡ (next_of s, ok (built s payload))
    unfolding build operator_command
    builds = rw (
      le→leb s.next_message_counter 255 w.counter,
      le→ltb 4095 (20 + length payload) (omega arith),
    )

    message-lt : bit_or 0x0100 s.next_message_counter ≤ 0xFFFF
    message-lt =
        rw (bit_or_fields 8 1 s.next_message_counter (omega (arith, w.counter)))
          (omega (arith, w.counter))

    encodes : encode_envelope (built s payload) ≡ ok (envelope_wire (built s payload))
    unfolding encode_envelope to_little
    encodes =
        let words : first_outside (word_ranges (built s payload)) ≡ none =
          none-first_outside (word_ranges (built s payload)) (omega (arith, w, message-lt)) in
        let basic : encode_basic (basic_of (built s payload))
            ≡ ok (basic_wire (basic_of (built s payload))) =
          encode_basic-Within (basic_of (built s payload)) (omega (arith, w)) in
        rw (==_refl (20 + length payload), words, basic)

-- A sequencer whose numbers are words builds, for every payload that fits in twelve bits of length,
-- an envelope that passes the operator policy and is encoded without an error; its numbers are
-- words again, the transport sequence eight further on and the message counter one, both wrapped.
pub build-policy :
    (s : Sequencer) (payload : List ℕ)
    → IsSequencer s
    → length payload ≤ 4075
    → (s' : Sequencer) × (e : Envelope) × (raw : List ℕ) × (build s payload ≡ (s', ok e))
      × (validate_operator_policy e ≡ ok tt)
      × (encode_envelope e ≡ ok raw)
      × IsSequencer s'
      × (s'.next_transport_sequence ≡ (s.next_transport_sequence + 8) % 65536)
      × (s'.next_message_counter ≡ (s.next_message_counter + 1) % 256)
build-policy s payload w fits =
    let transport : bit_and (s.next_transport_sequence + 8) 0xFFFF
        ≡ (s.next_transport_sequence + 8) % 65536 =
      bit_and_mask 16 _ in
    let counter : bit_and (s.next_message_counter + 1) 0xFF ≡ (s.next_message_counter + 1) % 256 =
      bit_and_mask 8 _ in
    (
      next_of s,
      built s payload,
      envelope_wire (built s payload),
      builds s payload w fits,
      passes s payload,
      encodes s payload w fits,
      record {
        session_id = w.session_id;
        transport = rw transport (omega arith);
        peer = w.peer;
        counter = rw counter (omega arith);
      },
      transport,
      counter,
    )
