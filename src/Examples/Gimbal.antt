-- ===== src/Examples/Gimbal.antt =====
-- control/policy.py and protocol/gimbal_commands.py: a slow movement.
use openframetap.Floats.{pos, negsuc}
use openframetap.Gimbal.{
  speed_fields, pocket3_speed_profile, ControlRate, build_speed_frame,
  validate_gimbal_control_frame, signed,
}
use openframetap.Crc.{crc8_dji, crc16_dji}
use openframetap.Bytes.{from_little, from_big}
use openframetap.Duml.{declared_length, frame_of, DumlFrame, decode_duml_frame}
use openframetap.Prelude.{[], ◌∷◌, true, refl, ok, ◌≡◌, ℕ, arith, false, List}
use openframetap.Gimbal.Accepts.{rate_of, build-accepted, IsProfile}
use openframetap.Duml.Wire.{wire}
use openframetap.Gimbal.Envelope.{validate-WithinEnvelope, WithinEnvelope}

pub pocket3_speed_profile-IsProfile : IsProfile pocket3_speed_profile
pocket3_speed_profile-IsProfile = record {
  sender = omega arith;
  receiver = omega arith;
  flags = omega arith;
  plain = refl;
  cmd_set = omega arith;
  cmd_id = omega arith;
  control = omega arith;
  limit = omega arith;
}

build-accepted_example :
    (raw : List ℕ) × (rate : ControlRate) × (build_speed_frame pocket3_speed_profile 7
        (negsuc 29)
        (pos 45)
        false
      ≡ ok raw)
    × (validate_gimbal_control_frame raw pocket3_speed_profile false ≡ ok rate)
    × (rate.sequence ≡ 7)
    × (rate.pitch_units ≡ negsuc 29)
    × (rate.roll_units ≡ pos 0)
    × (rate.yaw_units ≡ pos 45)
build-accepted_example =
    build-accepted pocket3_speed_profile 7 (negsuc 29) (pos 45) false
      pocket3_speed_profile-IsProfile (omega arith) (omega arith) (omega arith) refl

abbrev pub slow_frame : List ℕ
slow_frame = wire (speed_fields pocket3_speed_profile 7 (0xE2 ∷ 0xFF ∷ 0 ∷ 0 ∷ 45 ∷ 0 ∷ 1 ∷ []))

pub slow_frame-validated :
    validate_gimbal_control_frame slow_frame pocket3_speed_profile false
    ≡ ok (rate_of 7 (negsuc 29) (pos 45))
unfolding validate_gimbal_control_frame decode_duml_frame declared_length frame_of crc8_dji
    from_little crc16_dji signed from_big
slow_frame-validated = refl

validate-WithinEnvelope_example :
    (d : DumlFrame) × (decode_duml_frame slow_frame false ≡ ok d)
    × WithinEnvelope pocket3_speed_profile d (rate_of 7 (negsuc 29) (pos 45))
    × ((false ≡ true) → pocket3_speed_profile.pocket3_hardware_validated ≡ true)
validate-WithinEnvelope_example =
    validate-WithinEnvelope slow_frame pocket3_speed_profile false (rate_of 7 (negsuc 29) (pos 45))
      slow_frame-validated
