-- ===== src/Examples/Wifi.antt =====
-- protocol/dji_wifi.py, protocol/dji_wifi_media.py, protocol/framing.py and protocol/sequence.py on
-- concrete datagrams.
use openframetap.DjiWifi.{xor_all, BasicHeader, parse_basic, encode_basic}
use openframetap.Prelude.{
  ◌/◌, ◌≢◌, ◌*◌, length, ◌%◌, refl, get_or, false, drop, ◌≤◌, ◌∷◌, ◌+◌, ◌++◌, take, ok, arith, [],
  ◌≡◌, ◌<◌, ℕ, true, List,
}
use openframetap.Media.{parse_fragment, is_access_unit_start, MediaFragment}
use openframetap.DjiWifi.Windows.{
  observe-forward, acknowledge-window, acknowledgement, Acknowledges,
}
use openframetap.DjiWifi.Sequencer.{build, observe_peer_sequence, Sequencer}
use openframetap.DjiWifi.Policy.{build-policy, built, IsSequencer}
use openframetap.DjiWifi.Header.{parse-encode_basic, basic_wire}
use openframetap.DjiWifi.Flow.{
  word_difference, SequenceWindow, encode_operator_flow_ack, FlowStatus,
}
use openframetap.DjiWifi.Envelope.{
  validate_operator_policy, parse_envelope, encode_envelope, Envelope,
}
use openframetap.Bytes.{to_little, same_bytes, from_little, first_outside}
use openframetap.Att.{SequenceCounter}
use openframetap.DjiWifi.RoundTrip.{parse-encode_envelope, envelope_wire}
use openframetap.Media.Fragments.{parse_fragment_sound}

abbrev header : BasicHeader
header = record {
  total_length = 34;
  format_nibble = 8;
  session_id = 0x1234;
  transport_sequence = 16;
  wh_type = 1;
  checksum = 0;
  checksum_valid = true;
}

header-written : encode_basic header ≡ ok (basic_wire header)
unfolding encode_basic first_outside to_little
header-written = refl

parse-encode_basic_example :
    (parse_basic (basic_wire header ++ 1 ∷ [])
      ≡ ok (record header { checksum = get_or (basic_wire header) 7 0; checksum_valid = true }))
    × (xor_all 0 (basic_wire header) ≡ 0)
parse-encode_basic_example =
    parse-encode_basic header (basic_wire header) (1 ∷ []) header-written (omega arith)

abbrev sequencer : Sequencer
sequencer = record {
  session_id = 0x1234;
  next_transport_sequence = 0xFFF8;
  peer_sequence = 0xFFF0;
  next_message_counter = 255;
}

sequencer-IsSequencer : IsSequencer sequencer
sequencer-IsSequencer = record {
  session_id = omega arith;
  transport = omega arith;
  peer = omega arith;
  counter = omega arith;
}

abbrev envelope : Envelope
envelope = built sequencer (0x55 ∷ 0x0D ∷ [])

envelope-encoded : encode_envelope envelope ≡ ok (envelope_wire envelope)
unfolding encode_envelope encode_basic first_outside to_little
envelope-encoded = refl

parse-encode_envelope_example :
    parse_envelope (envelope_wire envelope) false
    ≡ ok (record envelope { checksum = get_or (envelope_wire envelope) 7 0; checksum_valid = true })
parse-encode_envelope_example =
    parse-encode_envelope envelope (envelope_wire envelope) envelope-encoded

build-policy_example :
    (s' : Sequencer) × (e : Envelope) × (raw : List ℕ) × (build sequencer (0x55 ∷ 0x0D ∷ [])
      ≡ (s', ok e))
    × (validate_operator_policy e ≡ ok tt)
    × (encode_envelope e ≡ ok raw)
    × IsSequencer s'
    × (s'.next_transport_sequence ≡ (0xFFF8 + 8) % 65536)
    × (s'.next_message_counter ≡ (255 + 1) % 256)
build-policy_example = build-policy sequencer (0x55 ∷ 0x0D ∷ []) sequencer-IsSequencer (omega arith)

-- The next peer sequence has wrapped.
abbrev sequencer_observed : Sequencer
sequencer_observed = record sequencer { peer_sequence = 8 }

observed : observe_peer_sequence sequencer 8 ≡ (sequencer_observed, ok true)
unfolding observe_peer_sequence
observed = refl

observe-forward_example :
    (sequencer_observed.peer_sequence ≡ 8)
    × (0 < word_difference 8 0xFFF0)
    × (word_difference 8 0xFFF0 < 0x8000)
    × (observe_peer_sequence sequencer_observed 0xFFF0 ≡ (sequencer_observed, ok false))
    × (observe_peer_sequence sequencer_observed 8 ≡ (sequencer_observed, ok false))
observe-forward_example = observe-forward sequencer sequencer_observed 8 (omega arith) observed

abbrev level_at : ℕ → SequenceWindow
level_at n = record { start = n; end = n; reserved = 0 ∷ 0 ∷ 0 ∷ 0 ∷ [] }

abbrev status : FlowStatus
status = record {
  basic = header;
  range_1 = level_at 3;
  range_2 = level_at 5;
  range_3 = level_at 0xFFF8;
  payload_length = 0;
  payload = [];
}

acknowledged : encode_operator_flow_ack status 8 ≡ ok (acknowledgement status 8)
unfolding encode_operator_flow_ack encode_basic first_outside to_little
acknowledged = refl

acknowledge-window_example : Acknowledges status 8 (acknowledgement status 8)
acknowledge-window_example = acknowledge-window status 8 (acknowledgement status 8) acknowledged

-- The second of two fragments, with one octet of payload.
abbrev fragment_raw : List ℕ
fragment_raw =
    0x15 ∷ 0x80 ∷ 1 ∷ 0 ∷ 0 ∷ 0 ∷ 2 ∷ 0x96 ∷ 0 ∷ 0 ∷ 0 ∷ 0 ∷ 0 ∷ 0 ∷ 0 ∷ 0 ∷ 7 ∷ 0x82 ∷ 0x40 ∷ 0
    ∷ 0xAA ∷ []

abbrev fragment : MediaFragment
fragment = record {
  basic = record {
    total_length = 21;
    format_nibble = 8;
    session_id = 1;
    transport_sequence = 0;
    wh_type = 2;
    checksum = 0x96;
    checksum_valid = true;
  };
  transport_metadata = 0 ∷ 0 ∷ 0 ∷ 0 ∷ 0 ∷ 0 ∷ 0 ∷ 0 ∷ [];
  frame_id = 7;
  fragment_count = 2;
  fragment_index = 1;
  frame_flags = 0x40;
  reserved_19 = 0;
  payload = 0xAA ∷ [];
}

fragment-parsed : parse_fragment fragment_raw ≡ ok fragment
unfolding parse_fragment parse_basic from_little
fragment-parsed = refl

parse_fragment_sound_example :
    (fragment.fragment_index < fragment.fragment_count)
    × (fragment.fragment_count ≤ 64)
    × (fragment.basic.checksum_valid ≡ true)
    × (get_or fragment_raw 17 0 ≡ fragment.fragment_index % 2 * 128 + fragment.fragment_count)
    × (get_or fragment_raw 18 0 ≡ fragment.frame_flags + fragment.fragment_index / 2)
    × (fragment.payload ≡ drop 20 fragment_raw)
    × (20 + length fragment.payload ≡ fragment.basic.total_length)
    × (length fragment_raw ≡ fragment.basic.total_length)
parse_fragment_sound_example =
    parse_fragment_sound fragment_raw fragment fragment-parsed (omega arith) (omega arith)

abbrev first_fragment : MediaFragment
first_fragment = record fragment {
  fragment_index = 0;
  payload = 0 ∷ 0 ∷ 1 ∷ 0xFF ∷ 5 ∷ 0 ∷ 0 ∷ 0 ∷ 0 ∷ 0 ∷ 0 ∷ 0 ∷ 1 ∷ 2 ∷ 0 ∷ 0 ∷ [];
}

first_fragment-starts : is_access_unit_start first_fragment ≡ true
unfolding is_access_unit_start same_bytes
first_fragment-starts = refl

first_fragment-length : from_little (take 4 (drop 4 first_fragment.payload)) ≢ 0
unfolding from_little
first_fragment-length e = absurd (omega arith)

abbrev counter : SequenceCounter
counter = record { next = 0xFFFE }
