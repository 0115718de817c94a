-- ===== src/DjiWifi.antt =====
-- protocol/dji_wifi.py: the basic header of eight octets that every Wi-Fi datagram begins with.
pub mod Header
pub mod Envelope
pub mod Sequencer
pub mod Flow
pub mod Policy
pub mod RoundTrip
pub mod Windows
use openframetap.Prelude.{
  ℕ, ◌+◌, ◌*◌, ◌/◌, ◌^◌, bit_and, bit_or, bit_xor, Bool, not, List, [], ◌∷◌, ◌++◌, ◌==◌, ltb,
  length, get_or, take, drop, Result, ok, err, ◌>>◌, ◌>>=◌, reject_if,
}
use openframetap.Bytes.{from_little, to_little, first_outside, reject_first}

abbrev pub header_length : ℕ
header_length = 20

abbrev pub basic_header_length : ℕ
basic_header_length = 8

abbrev pub flow_status_length : ℕ
flow_status_length = 34

abbrev pub format_nibble_value : ℕ
format_nibble_value = 0x8

abbrev pub device_status : ℕ
device_status = 0x01

abbrev pub operator_status : ℕ
operator_status = 0x04

abbrev pub operator_command_type : ℕ
operator_command_type = 0x05

pub data EnvelopeField : Type 0 where
  total_length format_nibble session_id transport_sequence wh_type : EnvelopeField
  peer_sequence sequence_echo message_sequence delivery_flags reserved_19 : EnvelopeField

-- `DjiWifiEnvelopeError`, and the `ValueError` of the checksum, one constructor for each message.
pub data EnvelopeError : Type 0 where
  checksum_input_length truncated_basic_header length_below_standard : EnvelopeError
  invalid_length : ℕ → EnvelopeError
  outside : EnvelopeField × ℕ → EnvelopeError
  not_device_status truncated_status_prefix status_payload_mismatch : EnvelopeError
  truncated_status truncated_envelope : ℕ → ℕ → EnvelopeError
  trailing_bytes : ℕ → EnvelopeError
  ambiguous_window last_sent_outside invalid_send_window : EnvelopeError
  exceeds_twelve_bits total_length_mismatch reserved_not_four : EnvelopeError
  unreviewed_format not_operator_command echo_mismatch : EnvelopeError
  reserved_not_zero nonzero_delivery_flags nonzero_reserved_19 : EnvelopeError
  counter_outside peer_sequence_outside : EnvelopeError

-- the loop of `header_xor_checksum`
unfoldable pub xor_all : ℕ → List ℕ → ℕ
xor_all value [] = value
xor_all value (item ∷ rest) = xor_all (bit_xor value item) rest

unfoldable pub header_xor_checksum : List ℕ → Result EnvelopeError ℕ
unfolding xor_all
header_xor_checksum first_seven = do
  reject_if (not (length first_seven == 7)) checksum_input_length
  ok (xor_all 0 first_seven)

-- `DjiWifiBasicHeader`
pub record BasicHeader : Type 0 where
  pub total_length : ℕ
  pub format_nibble : ℕ
  pub session_id : ℕ
  pub transport_sequence : ℕ
  pub wh_type : ℕ
  pub checksum : ℕ
  pub checksum_valid : Bool

-- `int.from_bytes(data[0:2], "little")`
abbrev pub length_and_format : List ℕ → ℕ
length_and_format raw = from_little (take 2 raw)

unfoldable pub parse_basic : List ℕ → Result EnvelopeError BasicHeader
unfolding header_xor_checksum
parse_basic raw = do
  reject_if (ltb (length raw) basic_header_length) truncated_basic_header
  let total_length = bit_and (length_and_format raw) 0x0FFF
  reject_if (ltb total_length basic_header_length) (invalid_length total_length)
  sum ← header_xor_checksum (take 7 raw)
  ok (record {
    total_length = total_length;
    format_nibble = length_and_format raw / 2 ^ 12;
    session_id = from_little (take 2 (drop 2 raw));
    transport_sequence = from_little (take 2 (drop 4 raw));
    wh_type = get_or raw 6 0;
    checksum = get_or raw 7 0;
    checksum_valid = sum == get_or raw 7 0;
  })

abbrev pub basic_ranges : BasicHeader → List (EnvelopeField × ℕ × ℕ)
basic_ranges h =
    (EnvelopeField.total_length, h.total_length, 0x0FFF)
    ∷ (EnvelopeField.format_nibble, h.format_nibble, 0x0F)
    ∷ (EnvelopeField.session_id, h.session_id, 0xFFFF)
    ∷ (EnvelopeField.transport_sequence, h.transport_sequence, 0xFFFF)
    ∷ (EnvelopeField.wh_type, h.wh_type, 0xFF)
    ∷ []

abbrev pub first_seven_of : BasicHeader → List ℕ
first_seven_of h =
    to_little 2 (bit_or (h.format_nibble * 2 ^ 12) h.total_length)
    ++ to_little 2 h.session_id
    ++ to_little 2 h.transport_sequence
    ++ h.wh_type ∷ []

unfoldable pub encode_basic : BasicHeader → Result EnvelopeError (List ℕ)
unfolding header_xor_checksum
encode_basic h = do
  reject_first (first_outside (basic_ranges h)) outside
  sum ← header_xor_checksum (first_seven_of h)
  ok (first_seven_of h ++ sum ∷ [])
