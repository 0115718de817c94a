-- ===== src/Duml.antt =====
-- protocol/duml.py: encoding and decoding of the DUML wire format.
pub mod Shape
pub mod Wire
pub mod RoundTrip
pub mod Reencode
use openframetap.Prelude.{
  ℕ, ◌+◌, ◌-◌, ◌*◌, ◌/◌, ◌^◌, bit_and, bit_or, Bool, not, ◌&&◌, List, [], ◌∷◌, ◌++◌, ◌==◌, ltb, leb,
  if◌then◌else◌, length, get_or, take, drop, Result, ok, err, ◌>>◌, reject_if,
}
use openframetap.Bytes.{from_little, from_big, to_little, first_outside, reject_first}
use openframetap.Crc.{crc8_dji, crc16_dji}

abbrev pub magic : ℕ
magic = 0x55

abbrev pub min_frame_length : ℕ
min_frame_length = 13

abbrev pub max_frame_length : ℕ
max_frame_length = 0x3FF

-- `DumlDecodeError`, one constructor for each message.
pub data DumlDecodeError : Type 0 where
  truncated_header : DumlDecodeError
  invalid_magic invalid_total_length : ℕ → DumlDecodeError
  truncated_frame : ℕ → ℕ → DumlDecodeError
  trailing_bytes : ℕ → DumlDecodeError

pub record DumlFrame : Type 0 where
  pub total_length : ℕ
  pub version : ℕ
  pub length_version_raw : ℕ
  pub sender : ℕ
  pub receiver : ℕ
  pub sequence : ℕ
  pub flags : ℕ
  pub cmd_set : ℕ
  pub cmd_id : ℕ
  pub payload : List ℕ
  pub crc8_expected : ℕ
  pub crc8_actual : ℕ
  pub crc8_valid : Bool
  pub crc16_expected : ℕ
  pub crc16_actual : ℕ
  pub crc16_valid : Bool
  pub raw : List ℕ

pub data AckType : Type 0 where
  response_ack response request_ack_required request_or_notification : AckType

-- `if self.flags & mask`
unfoldable pub has_flag : ℕ → ℕ → Bool
has_flag flags mask = not (bit_and flags mask == 0)

unfoldable pub ack_type : DumlFrame → AckType
unfolding has_flag
ack_type f =
    if has_flag f.flags 0x80
    then (if has_flag f.flags 0x40 then response_ack else response)
    else if has_flag f.flags 0x40
    then request_ack_required
    else request_or_notification

unfoldable pub encryption : DumlFrame → ℕ
encryption f = bit_and f.flags 0x07

unfoldable pub unknown_flag_bits : DumlFrame → ℕ
unknown_flag_bits f = bit_and f.flags 0x38

-- The keyword arguments of `encode_duml_frame`.
pub record DumlFields : Type 0 where
  pub sender : ℕ
  pub receiver : ℕ
  pub sequence : ℕ
  pub flags : ℕ
  pub cmd_set : ℕ
  pub cmd_id : ℕ
  pub payload : List ℕ
  pub version : ℕ

pub data FieldName : Type 0 where
  sender receiver sequence flags cmd_set cmd_id version : FieldName

-- The `ValueError`s of the encoder.
pub data DumlEncodeError : Type 0 where
  outside : FieldName × ℕ → DumlEncodeError
  exceeds_maximum : DumlEncodeError

abbrev pub field_ranges : DumlFields → List (FieldName × ℕ × ℕ)
field_ranges f =
    (FieldName.sender, f.sender, 0xFF)
    ∷ (FieldName.receiver, f.receiver, 0xFF)
    ∷ (FieldName.sequence, f.sequence, 0xFFFF)
    ∷ (FieldName.flags, f.flags, 0xFF)
    ∷ (FieldName.cmd_set, f.cmd_set, 0xFF)
    ∷ (FieldName.cmd_id, f.cmd_id, 0xFF)
    ∷ (FieldName.version, f.version, 0x3F)
    ∷ []

-- The header of four bytes, closed by its own checksum.
unfoldable pub frame_header : ℕ → ℕ → List ℕ
frame_header v total_length =
    let first : List ℕ =
      magic ∷ bit_and total_length 0xFF ∷ bit_or (v * 2 ^ 2) (total_length / 2 ^ 8) ∷ [] in
    first ++ crc8_dji first ∷ []

unfoldable pub frame_body : DumlFields → List ℕ
frame_body f =
    (f.sender
      ∷ f.receiver
      ∷ bit_and (f.sequence / 2 ^ 8) 0xFF
      ∷ bit_and f.sequence 0xFF
      ∷ f.flags
      ∷ f.cmd_set
      ∷ f.cmd_id
      ∷ [])
    ++ f.payload

abbrev pub frame_length : DumlFields → ℕ
frame_length f = min_frame_length + length f.payload

unfoldable pub without_crc16 : DumlFields → List ℕ
unfolding frame_header frame_body
without_crc16 f = frame_header f.version (frame_length f) ++ frame_body f

unfoldable pub encode_duml_frame : DumlFields → Result DumlEncodeError (List ℕ)
unfolding without_crc16
encode_duml_frame f = do
  reject_first (first_outside (field_ranges f)) outside
  reject_if (ltb max_frame_length (frame_length f)) exceeds_maximum
  ok (without_crc16 f ++ to_little 2 (crc16_dji (without_crc16 f)))

-- `raw[1] | ((raw[2] & 0x03) << 8)`
unfoldable pub declared_length : List ℕ → ℕ
declared_length raw = bit_or (get_or raw 1 0) (bit_and (get_or raw 2 0) 0x03 * 2 ^ 8)

-- The fields of a raw frame whose length has been checked; `raw[a:-2]` ends two bytes early.
unfoldable pub frame_of : ℕ → List ℕ → DumlFrame
frame_of total_length raw =
    let crc8_expected = get_or raw 3 0 in
    let crc8_actual = crc8_dji (take 3 raw) in
    let crc16_expected = from_little (drop (length raw - 2) raw) in
    let crc16_actual = crc16_dji (take (length raw - 2) raw) in
    record {
      total_length = total_length;
      version = get_or raw 2 0 / 2 ^ 2;
      length_version_raw = get_or raw 2 0;
      sender = get_or raw 4 0;
      receiver = get_or raw 5 0;
      sequence = from_big (take 2 (drop 6 raw));
      flags = get_or raw 8 0;
      cmd_set = get_or raw 9 0;
      cmd_id = get_or raw 10 0;
      payload = take (length raw - 2 - 11) (drop 11 raw);
      crc8_expected = crc8_expected;
      crc8_actual = crc8_actual;
      crc8_valid = crc8_expected == crc8_actual;
      crc16_expected = crc16_expected;
      crc16_actual = crc16_actual;
      crc16_valid = crc16_expected == crc16_actual;
      raw = raw;
    }

-- The guards make every index above lie within the input.
unfoldable pub decode_duml_frame : List ℕ → Bool → Result DumlDecodeError DumlFrame
decode_duml_frame raw_input allow_trailing = do
  reject_if (ltb (length raw_input) 4) truncated_header
  reject_if (not (get_or raw_input 0 0 == magic)) (invalid_magic (get_or raw_input 0 0))
  let total_length = declared_length raw_input
  reject_if (not (leb min_frame_length total_length && leb total_length max_frame_length))
      (invalid_total_length total_length)
  reject_if (ltb (length raw_input) total_length) (truncated_frame total_length (length raw_input))
  reject_if (ltb total_length (length raw_input) && not allow_trailing)
      (trailing_bytes (length raw_input - total_length))
  ok (frame_of total_length (take total_length raw_input))
