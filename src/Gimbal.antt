-- ===== src/Gimbal.antt =====
-- protocol/gimbal_commands.py and control/policy.py: the frames that move the gimbal, and the last
-- check before one is sent.
pub mod Envelope
pub mod Accepts
pub mod Axes
pub mod Zero
use openframetap.Duml.{
  DumlFields, DumlFrame, DumlEncodeError, DumlDecodeError, encode_duml_frame, decode_duml_frame,
  encryption,
}
use openframetap.Prelude.{
  [], ◌∷◌, ◌++◌, get_or, ok, length, ◌||◌, ◌&&◌, not, reject_if, map_err, drop, ◌>>◌, ◌>>=◌, take,
  ltb, ◌==◌, ◌-◌, suc, leb, if◌then◌else◌, Result, ℕ, false, List, Bool,
}
use openframetap.Bytes.{to_little, from_little}
use openframetap.Floats.{negsuc, ℤ, pos, abs}

abbrev pub is_zero : ℤ → Bool
is_zero z = abs z == 0

-- The two octets of struct's "<h": the word of a value in range, and the value of a word.
abbrev pub word_of : ℤ → ℕ
word_of (pos n) = n
word_of (negsuc n) = 65535 - n

unfoldable pub signed : ℕ → ℤ
signed word = if ltb word 32768 then pos word else negsuc (65535 - word)

abbrev pub in_int16 : ℤ → Bool
in_int16 (pos n) = leb n 32767
in_int16 (negsuc n) = leb n 32767

-- `Pocket3GimbalSpeedProfile`. The limit is the value of `limit_units`, the rounded product of the
-- profile's two floating-point numbers.
pub record SpeedProfile : Type 0 where
  pub cmd_set : ℕ
  pub cmd_id : ℕ
  pub sender : ℕ
  pub receiver : ℕ
  pub request_flags : ℕ
  pub control_flag : ℕ
  pub limit_units : ℕ
  pub pocket3_hardware_validated : Bool

abbrev pub pocket3_speed_profile : SpeedProfile
pocket3_speed_profile = record {
  cmd_set = 0x04;
  cmd_id = 0x0C;
  sender = 0x02;
  receiver = 0x04;
  request_flags = 0x40;
  control_flag = 0x01;
  limit_units = 45;
  pocket3_hardware_validated = false;
}

pub data BuildError : Type 0 where
  struct_error crc_failed axis_outside : BuildError
  encode_error : DumlEncodeError → BuildError
  decode_error : DumlDecodeError → BuildError

-- `speed_payload` from its rounded units on.
unfoldable pub speed_payload : SpeedProfile → ℤ → ℤ → Bool → Result BuildError (List ℕ)
speed_payload profile pitch_units yaw_units release = do
  let flag = if release then 0 else profile.control_flag
  reject_if (not (in_int16 pitch_units && in_int16 yaw_units && leb flag 255)) struct_error
  ok (
      to_little 2 (word_of pitch_units)
      ++ to_little 2 0
      ++ to_little 2 (word_of yaw_units)
      ++ flag ∷ [])

abbrev pub speed_fields : SpeedProfile → ℕ → List ℕ → DumlFields
speed_fields profile sequence payload = record {
  sender = profile.sender;
  receiver = profile.receiver;
  sequence = sequence;
  flags = profile.request_flags;
  cmd_set = profile.cmd_set;
  cmd_id = profile.cmd_id;
  payload = payload;
  version = 1;
}

unfoldable pub build_speed_frame : SpeedProfile → ℕ → ℤ → ℤ → Bool → Result BuildError (List ℕ)
unfolding speed_payload
build_speed_frame profile sequence pitch_units yaw_units release = do
  payload ← speed_payload profile pitch_units yaw_units release
  frame ← map_err encode_error (encode_duml_frame (speed_fields profile sequence payload))
  decoded ← map_err decode_error (decode_duml_frame frame false)
  reject_if (not decoded.crc8_valid || not decoded.crc16_valid) crc_failed
  ok frame

unfoldable pub build_zero_frame : SpeedProfile → ℕ → Result BuildError (List ℕ)
unfolding build_speed_frame
build_zero_frame profile sequence = build_speed_frame profile sequence (pos 0) (pos 0) false

-- `CommandRejected`, one constructor for each message.
pub data CommandRejected : Type 0 where
  invalid_frame : DumlDecodeError → CommandRejected
  crc_validation_failed endpoint_mismatch unreviewed_flags raw_pwm_prohibited : CommandRejected
  unknown_gimbal_command not_live_validated payload_not_seven roll_not_allowed : CommandRejected
  rate_exceeds_envelope unreviewed_control_flag : CommandRejected

-- The dictionary that an accepted frame is described by.
pub record ControlRate : Type 0 where
  pub sequence : ℕ
  pub pitch_units : ℤ
  pub roll_units : ℤ
  pub yaw_units : ℤ
  pub is_zero_rate : Bool

abbrev pub units_at : List ℕ → ℕ → ℤ
units_at payload offset = signed (from_little (take 2 (drop offset payload)))

-- the checks once the frame has been decoded
unfoldable pub validate_decoded :
    SpeedProfile → Bool → DumlFrame → Result CommandRejected ControlRate
unfolding encryption
validate_decoded profile require_live frame = do
  reject_if (not frame.crc8_valid || not frame.crc16_valid) crc_validation_failed
  reject_if (not (frame.sender == profile.sender && frame.receiver == profile.receiver))
      endpoint_mismatch
  reject_if (not (frame.flags == profile.request_flags) || not (encryption frame == 0))
      unreviewed_flags
  reject_if (not (frame.cmd_set == profile.cmd_set) || not (frame.cmd_id == profile.cmd_id)) (
      if frame.cmd_set == 0x04 && frame.cmd_id == 0x01
      then raw_pwm_prohibited
      else unknown_gimbal_command)
  reject_if (require_live && not profile.pocket3_hardware_validated) not_live_validated
  reject_if (not (length frame.payload == 7)) payload_not_seven
  let pitch_units = units_at frame.payload 0
  let roll_units = units_at frame.payload 2
  let yaw_units = units_at frame.payload 4
  reject_if (not (is_zero roll_units)) roll_not_allowed
  reject_if (ltb profile.limit_units (abs pitch_units) || ltb profile.limit_units (abs yaw_units))
      rate_exceeds_envelope
  reject_if (not (get_or frame.payload 6 0 == profile.control_flag)) unreviewed_control_flag
  ok (record {
    sequence = frame.sequence;
    pitch_units = pitch_units;
    roll_units = roll_units;
    yaw_units = yaw_units;
    is_zero_rate = is_zero pitch_units && is_zero yaw_units;
  })

unfoldable pub validate_gimbal_control_frame :
    List ℕ → SpeedProfile → Bool → Result CommandRejected ControlRate
unfolding validate_decoded
validate_gimbal_control_frame raw profile require_live = do
  frame ← map_err invalid_frame (decode_duml_frame raw false)
  validate_decoded profile require_live frame
