-- ===== src/Gimbal/Accepts.antt =====
-- control/policy.py: what is built within the limits is accepted.
use openframetap.Duml.{DumlFields, DumlFrame, decode_duml_frame, encode_duml_frame, encryption}
use openframetap.Duml.Wire.{wire, encode-Within}
use openframetap.Duml.RoundTrip.{Carries, decode-encode}
use openframetap.Gimbal.{
  is_zero, word_of, speed_payload, speed_fields, in_int16, build_speed_frame, signed, SpeedProfile,
  ControlRate, validate_gimbal_control_frame, validate_decoded, abs, ℤ, pos, negsuc,
}
use openframetap.Prelude.{
  refl, ◌∙◌, append-nil, sym, le→ltb, inl, ap, ==_refl, ◌/◌, ◌-◌, [], ◌∷◌, not, le→leb, arith, ◌<◌,
  ◌&&◌, ◌%◌, true, ok, lt→ltb, false, ◌≡◌, bit_and, List, Bool, ◌≤◌, ℕ,
}
use openframetap.Bytes.{from-to_little, from_little, to_little}

-- A profile of octets whose flags are unencrypted and whose limit fits in sixteen bits.
pub record IsProfile (profile : SpeedProfile) : Type 0 where
  pub sender : profile.sender ≤ 255
  pub receiver : profile.receiver ≤ 255
  pub flags : profile.request_flags ≤ 255
  pub plain : bit_and profile.request_flags 7 ≡ 0
  pub cmd_set : profile.cmd_set ≤ 255
  pub cmd_id : profile.cmd_id ≤ 255
  pub control : profile.control_flag ≤ 255
  pub limit : profile.limit_units ≤ 32767

word_of-lt : (z : ℤ) → abs z ≤ 32767 → word_of z < 65536
word_of-lt (pos n) h = omega arith
word_of-lt (negsuc n) h = omega arith

abs-in_int16 : (z : ℤ) → abs z ≤ 32767 → in_int16 z ≡ true
abs-in_int16 (pos n) h = le→leb n 32767 h
abs-in_int16 (negsuc n) h = le→leb n 32767 (omega arith)

-- Packing and unpacking a value of sixteen bits gives the value.
signed-word_of : (z : ℤ) → abs z ≤ 32767 → signed (word_of z) ≡ z
unfolding signed
signed-word_of (pos n) h = rw (lt→ltb n 32768 (omega arith))
signed-word_of (negsuc n) h =
    let back : 65535 - (65535 - n) ≡ n = omega arith in
    rw (le→ltb (65535 - n) 32768 (omega arith), back)

units_read :
    (z : ℤ)
    → abs z ≤ 32767
    → signed (from_little (word_of z % 256 ∷ word_of z / 256 % 256 ∷ [])) ≡ z
unfolding to_little
units_read z h = ap signed (from-to_little (word_of z) (word_of-lt z h)) ∙ signed-word_of z h

-- The rates that an accepted frame is described by.
abbrev pub rate_of : ℕ → ℤ → ℤ → ControlRate
rate_of sequence pitch yaw = record {
  sequence = sequence;
  pitch_units = pitch;
  roll_units = pos 0;
  yaw_units = yaw;
  is_zero_rate = is_zero pitch && is_zero yaw;
}

module _ (profile : SpeedProfile) (sequence : ℕ) (pitch yaw : ℤ) (p : IsProfile profile)
    (word : sequence ≤ 65535) (slow : abs pitch ≤ profile.limit_units)
    (slow_yaw : abs yaw ≤ profile.limit_units) where
  abbrev payload : List ℕ
  payload =
      word_of pitch % 256
      ∷ word_of pitch / 256 % 256
      ∷ 0
      ∷ 0
      ∷ word_of yaw % 256
      ∷ word_of yaw / 256 % 256
      ∷ profile.control_flag
      ∷ []

  abbrev fields : DumlFields
  fields = speed_fields profile sequence payload

  paid : speed_payload profile pitch yaw false ≡ ok payload
  unfolding speed_payload to_little
  paid = rw (
    abs-in_int16 pitch (omega (arith, p)),
    abs-in_int16 yaw (omega (arith, p)),
    le→leb profile.control_flag 255 p.control,
  )

  encoded : encode_duml_frame fields ≡ ok (wire fields)
  encoded = encode-Within fields (omega (arith, p)) (omega arith)

  built :
      (d : DumlFrame)
      → decode_duml_frame (wire fields) false ≡ ok d
      → Carries fields d
      → build_speed_frame profile sequence pitch yaw false ≡ ok (wire fields)
  unfolding build_speed_frame
  built d dec c = rw (paid, encoded, dec, c.crc8_valid, c.crc16_valid)

  accepted :
      (live : Bool) (d : DumlFrame)
      → Carries fields d
      → (live && not profile.pocket3_hardware_validated) ≡ false
      → validate_decoded profile live d ≡ ok (rate_of sequence pitch yaw)
  unfolding validate_decoded encryption signed from_little
  accepted live d c validated = rw (
    c.crc8_valid,
    c.crc16_valid,
    c.sender,
    c.receiver,
    c.flags,
    c.cmd_set,
    c.cmd_id,
    c.payload,
    c.sequence,
    ==_refl profile.sender,
    ==_refl profile.receiver,
    ==_refl profile.request_flags,
    p.plain,
    ==_refl profile.cmd_set,
    ==_refl profile.cmd_id,
    validated,
    units_read pitch (omega (arith, p)),
    units_read yaw (omega (arith, p)),
    le→ltb profile.limit_units (abs pitch) slow,
    le→ltb profile.limit_units (abs yaw) slow_yaw,
    ==_refl profile.control_flag,
  )

-- A frame that is built for rates within the limit of a profile of octets is accepted by the policy
-- with exactly these rates and no roll, unless live validation is required and missing.
pub build-accepted :
    (profile : SpeedProfile) (sequence : ℕ) (pitch yaw : ℤ) (live : Bool)
    → IsProfile profile
    → sequence ≤ 65535
    → abs pitch ≤ profile.limit_units
    → abs yaw ≤ profile.limit_units
    → (live && not profile.pocket3_hardware_validated) ≡ false
    → (raw : List ℕ) × (rate : ControlRate) × (build_speed_frame profile sequence pitch yaw false
        ≡ ok raw)
      × (validate_gimbal_control_frame raw profile live ≡ ok rate)
      × (rate.sequence ≡ sequence)
      × (rate.pitch_units ≡ pitch)
      × (rate.roll_units ≡ pos 0)
      × (rate.yaw_units ≡ yaw)
unfolding validate_gimbal_control_frame
build-accepted profile sequence pitch yaw live p word slow slow_yaw validated =
    let f = fields profile sequence pitch yaw p word slow slow_yaw in
    let enc = encoded profile sequence pitch yaw p word slow slow_yaw in
    let (d, dec, c, same) = decode-encode f (wire f) [] false enc (inl refl) in
    let dec' : decode_duml_frame (wire f) false ≡ ok d =
      ap (λ t. decode_duml_frame t false) (sym (append-nil (wire f))) ∙ dec in
    (
      wire f,
      rate_of sequence pitch yaw,
      built profile sequence pitch yaw p word slow slow_yaw d dec' c,
      rw dec' (accepted profile sequence pitch yaw p word slow slow_yaw live d c validated),
      refl,
      refl,
      refl,
      refl,
    )
