-- ===== src/StickProfile.antt =====
-- control/gimbal_profile.py: the stick commands over Wi-Fi and their envelope, from the rounded
-- offsets on.
pub mod RoundTrip
use openframetap.Prelude.{
  length, ok, leb, if◌then◌else◌, ◌||◌, not, ◌&&◌, reject_if, map_err, drop, [], ◌∷◌, ◌>>◌, ◌>>=◌,
  ◌==◌, ◌++◌, take, ℕ, Result, List, Bool, false, true, some, none,
}
use openframetap.Duml.{
  DumlDecodeError, DumlEncodeError, DumlFields, DumlFrame, encode_duml_frame, decode_duml_frame,
}
use openframetap.Bytes.{to_little, from_little, same_bytes}

-- `Pocket3StickCommand`
pub record StickCommand : Type 0 where
  pub pitch : ℕ
  pub yaw : ℕ
  pub roll : ℕ
  pub fixed_8000 : ℕ
  pub fixed_0042 : ℕ

pub data StickError : Type 0 where
  roll_prohibited fixed_changed pitch_outside yaw_outside : StickError
  crc_failed keepalive_prohibited not_allowlisted not_ten_bytes not_the_response : StickError
  encode_failed : DumlEncodeError → StickError
  decode_failed : DumlDecodeError → StickError

-- `Pocket3StickCommand.__post_init__`
unfoldable pub check_stick : StickCommand → Result StickError StickCommand
check_stick c = do
  reject_if (not (c.roll == 0)) roll_prohibited
  reject_if (not (c.fixed_8000 == 0x8000) || not (c.fixed_0042 == 0x0042)) fixed_changed
  reject_if (not (leb 836 c.pitch && leb c.pitch 1256)) pitch_outside
  reject_if (not (leb 810 c.yaw && leb c.yaw 1295)) yaw_outside
  ok c

-- A command with the default values of the other fields.
abbrev pub stick : ℕ → ℕ → StickCommand
stick pitch yaw = record {
  pitch = pitch;
  yaw = yaw;
  roll = 0;
  fixed_8000 = 0x8000;
  fixed_0042 = 0x0042;
}

abbrev pub center_stick_command : StickCommand
center_stick_command = stick 1024 1024

abbrev pub is_center : StickCommand → Bool
is_center c = c.pitch == 1024 && c.yaw == 1024

abbrev pub encode_payload : StickCommand → List ℕ
encode_payload c =
    to_little 2 c.pitch
    ++ to_little 2 c.roll
    ++ to_little 2 c.yaw
    ++ to_little 2 c.fixed_8000
    ++ to_little 2 c.fixed_0042

abbrev pub stick_fields : StickCommand → ℕ → DumlFields
stick_fields c sequence = record {
  sender = 0x02;
  receiver = 0x04;
  sequence = sequence;
  flags = 0x00;
  cmd_set = 0x04;
  cmd_id = 0x01;
  payload = encode_payload c;
  version = 1;
}

-- A frame is encoded and then decoded to test its checksums.
unfoldable pub checked_frame : DumlFields → Result StickError (List ℕ)
checked_frame f = do
  frame ← map_err StickError.encode_failed (encode_duml_frame f)
  decoded ← map_err StickError.decode_failed (decode_duml_frame frame false)
  reject_if (not decoded.crc8_valid || not decoded.crc16_valid) crc_failed
  ok frame

unfoldable pub encode_stick : StickCommand → ℕ → Result StickError (List ℕ)
unfolding checked_frame
encode_stick c sequence = checked_frame (stick_fields c sequence)

unfoldable pub encode_control_keepalive : ℕ → Result StickError (List ℕ)
unfolding checked_frame
encode_control_keepalive sequence = checked_frame (record {
  sender = 0x02;
  receiver = 0x04;
  sequence = sequence;
  flags = 0x40;
  cmd_set = 0x04;
  cmd_id = 0x50;
  payload = 0x01 ∷ 0x04 ∷ 0x05 ∷ [];
  version = 1;
})

abbrev pub is_keepalive_response : DumlFrame → Bool
is_keepalive_response frame =
    frame.sender == 0x04
    && frame.receiver == 0x02
    && frame.flags == 0x80
    && frame.cmd_set == 0x04
    && frame.cmd_id == 0x50
    && same_bytes frame.payload (0x00 ∷ 0x01 ∷ 0x04 ∷ 0x01 ∷ 0x00 ∷ 0x05 ∷ 0x01 ∷ 0x01 ∷ [])

unfoldable pub decode_control_keepalive_response : List ℕ → Result StickError ℕ
decode_control_keepalive_response raw = do
  frame ← map_err StickError.decode_failed (decode_duml_frame raw false)
  reject_if (not frame.crc8_valid || not frame.crc16_valid) crc_failed
  reject_if (not (is_keepalive_response frame)) not_the_response
  ok frame.sequence

abbrev pub word_at : List ℕ → ℕ → ℕ
word_at payload offset = from_little (take 2 (drop offset payload))

-- The command that a payload of ten octets says.
abbrev pub stick_of : List ℕ → StickCommand
stick_of payload = record {
  pitch = word_at payload 0;
  roll = word_at payload 2;
  yaw = word_at payload 4;
  fixed_8000 = word_at payload 6;
  fixed_0042 = word_at payload 8;
}

abbrev pub is_stick_frame : DumlFrame → Bool
is_stick_frame frame =
    frame.sender == 0x02
    && frame.receiver == 0x04
    && frame.flags == 0x00
    && frame.cmd_set == 0x04
    && frame.cmd_id == 0x01

-- `validate_stick_duml` of a frame that has been decoded
unfoldable pub validate_stick_frame : DumlFrame → Result StickError StickCommand
unfolding check_stick
validate_stick_frame frame = do
  reject_if (not frame.crc8_valid || not frame.crc16_valid) crc_failed
  reject_if (not (is_stick_frame frame)) (
      if frame.cmd_set == 0x04 && frame.cmd_id == 0x50
      then keepalive_prohibited
      else not_allowlisted)
  reject_if (not (length frame.payload == 10)) not_ten_bytes
  check_stick (stick_of frame.payload)

unfoldable pub validate_stick_duml : List ℕ → Result StickError StickCommand
unfolding validate_stick_frame
validate_stick_duml raw = do
  frame ← map_err StickError.decode_failed (decode_duml_frame raw false)
  validate_stick_frame frame
