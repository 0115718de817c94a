-- ===== src/DjiWifi/Envelope.antt =====
-- protocol/dji_wifi.py: the standard envelope of twenty octets around DUML messages.
use openframetap.DjiWifi.{
  nonzero_reserved_19, nonzero_delivery_flags, reserved_not_zero, outside, echo_mismatch,
  trailing_bytes, not_operator_command, unreviewed_format, reserved_not_four, operator_command_type,
  truncated_envelope, total_length_mismatch, format_nibble_value, length_below_standard,
  exceeds_twelve_bits, header_length, EnvelopeField, EnvelopeError, BasicHeader, parse_basic,
  encode_basic,
}
use openframetap.Prelude.{
  length, get_or, drop, [], take, Bool, ℕ, Result, List, ◌++◌, ◌-◌, ◌&&◌, ok, ◌==◌, not, ltb,
  reject_if, ◌>>◌, ◌>>=◌, ◌+◌, ◌∷◌, true,
}
use openframetap.Bytes.{from_little, to_little, same_bytes, first_outside, reject_first}

-- `DjiWifiEnvelope`
pub record Envelope : Type 0 where
  pub total_length : ℕ
  pub format_nibble : ℕ
  pub session_id : ℕ
  pub transport_sequence : ℕ
  pub wh_type : ℕ
  pub checksum : ℕ
  pub checksum_valid : Bool
  pub peer_sequence : ℕ
  pub sequence_echo : ℕ
  pub reserved_12_15 : List ℕ
  pub message_sequence : ℕ
  pub delivery_flags : ℕ
  pub reserved_19 : ℕ
  pub payload : List ℕ

-- the envelope of a raw datagram whose length has been checked
abbrev pub envelope_of : BasicHeader → List ℕ → Envelope
envelope_of basic raw = record {
  total_length = basic.total_length;
  format_nibble = basic.format_nibble;
  session_id = basic.session_id;
  transport_sequence = basic.transport_sequence;
  wh_type = basic.wh_type;
  checksum = basic.checksum;
  checksum_valid = basic.checksum_valid;
  peer_sequence = from_little (take 2 (drop 8 raw));
  sequence_echo = from_little (take 2 (drop 10 raw));
  reserved_12_15 = take 4 (drop 12 raw);
  message_sequence = from_little (take 2 (drop 16 raw));
  delivery_flags = get_or raw 18 0;
  reserved_19 = get_or raw 19 0;
  payload = drop 20 raw;
}

unfoldable pub parse_envelope : List ℕ → Bool → Result EnvelopeError Envelope
parse_envelope raw allow_trailing = do
  basic ← parse_basic raw
  reject_if (ltb basic.total_length header_length) length_below_standard
  reject_if (ltb (length raw) basic.total_length)
      (truncated_envelope basic.total_length (length raw))
  reject_if (ltb basic.total_length (length raw) && not allow_trailing)
      (trailing_bytes (length raw - basic.total_length))
  ok (envelope_of basic (take basic.total_length raw))

-- The arguments of `operator_command` and of `build`.
unfoldable pub operator_command : List ℕ → ℕ → ℕ → ℕ → ℕ → Result EnvelopeError Envelope
operator_command payload session_id transport_sequence peer_sequence message_sequence = do
  let total_length = header_length + length payload
  reject_if (ltb 0x0FFF total_length) exceeds_twelve_bits
  ok (record {
    total_length = total_length;
    format_nibble = format_nibble_value;
    session_id = session_id;
    transport_sequence = transport_sequence;
    wh_type = operator_command_type;
    checksum = 0;
    checksum_valid = true;
    peer_sequence = peer_sequence;
    sequence_echo = transport_sequence;
    reserved_12_15 = 0 ∷ 0 ∷ 0 ∷ 0 ∷ [];
    message_sequence = message_sequence;
    delivery_flags = 0;
    reserved_19 = 0;
    payload = payload;
  })

abbrev pub word_ranges : Envelope → List (EnvelopeField × ℕ × ℕ)
word_ranges e =
    (EnvelopeField.peer_sequence, e.peer_sequence, 0xFFFF)
    ∷ (EnvelopeField.sequence_echo, e.sequence_echo, 0xFFFF)
    ∷ (EnvelopeField.message_sequence, e.message_sequence, 0xFFFF)
    ∷ (EnvelopeField.delivery_flags, e.delivery_flags, 0xFF)
    ∷ (EnvelopeField.reserved_19, e.reserved_19, 0xFF)
    ∷ []

abbrev pub basic_of : Envelope → BasicHeader
basic_of e = record {
  total_length = e.total_length;
  format_nibble = e.format_nibble;
  session_id = e.session_id;
  transport_sequence = e.transport_sequence;
  wh_type = e.wh_type;
  checksum = 0;
  checksum_valid = true;
}

unfoldable pub encode_envelope : Envelope → Result EnvelopeError (List ℕ)
encode_envelope e = do
  reject_if (not (e.total_length == header_length + length e.payload)) total_length_mismatch
  reject_if (not (length e.reserved_12_15 == 4)) reserved_not_four
  reject_first (first_outside (word_ranges e)) outside
  basic ← encode_basic (basic_of e)
  ok (
      basic
      ++ to_little 2 e.peer_sequence
      ++ to_little 2 e.sequence_echo
      ++ e.reserved_12_15
      ++ to_little 2 e.message_sequence
      ++ (e.delivery_flags ∷ e.reserved_19 ∷ [])
      ++ e.payload)

unfoldable pub validate_operator_policy : Envelope → Result EnvelopeError (Unit {0})
validate_operator_policy e = do
  reject_if (not (e.format_nibble == format_nibble_value)) unreviewed_format
  reject_if (not (e.wh_type == operator_command_type)) not_operator_command
  reject_if (not (e.sequence_echo == e.transport_sequence)) echo_mismatch
  reject_if (not (same_bytes e.reserved_12_15 (0 ∷ 0 ∷ 0 ∷ 0 ∷ []))) reserved_not_zero
  reject_if (not (e.delivery_flags == 0)) nonzero_delivery_flags
  reject_if (not (e.reserved_19 == 0)) nonzero_reserved_19
