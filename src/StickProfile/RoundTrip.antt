-- ===== src/StickProfile/RoundTrip.antt =====
-- control/gimbal_profile.py: what is encoded is read back, within the envelope.
use openframetap.Prelude.{
  ◌∙◌, length, ap, arith, [], ◌/◌, ◌∷◌, refl, ◌%◌, le→leb, List, ◌<◌, ok, ◌≤◌, ◌≡◌, ℕ,
}
use openframetap.StickProfile.{
  StickCommand, stick, check_stick, stick_fields, encode_stick, checked_frame, validate_stick_frame,
  validate_stick_duml, encode_payload, stick_of,
}
use openframetap.Duml.{DumlFields, DumlFrame, encode_duml_frame}
use openframetap.Duml.RoundTrip.{Carries}
use openframetap.Commands.Frames.{decoded_again}
use openframetap.Bytes.{to_little, from_little, from-to_little}
use openframetap.Duml.Wire.{encode-Within, wire}

-- The captured envelope.
pub record InEnvelope (c : StickCommand) : Type 0 where
  pub pitch_low : 836 ≤ c.pitch
  pub pitch_high : c.pitch ≤ 1256
  pub yaw_low : 810 ≤ c.yaw
  pub yaw_high : c.yaw ≤ 1295
  pub roll : c.roll ≡ 0
  pub fixed : (c.fixed_8000 ≡ 0x8000) × (c.fixed_0042 ≡ 0x0042)

-- A payload says the command that it was made from.
payload_read :
    (pitch yaw : ℕ)
    → pitch < 65536
    → yaw < 65536
    → stick_of (encode_payload (stick pitch yaw)) ≡ stick pitch yaw
unfolding to_little from_little
payload_read pitch yaw p y =
    let first : from_little (pitch % 256 ∷ pitch / 256 % 256 ∷ []) ≡ pitch =
      from-to_little pitch p in
    let second : from_little (yaw % 256 ∷ yaw / 256 % 256 ∷ []) ≡ yaw = from-to_little yaw y in
    ap (λ t. stick t.0 t.1) (pair_eq first second)
  where
    pair_eq : {a b c d : ℕ} → a ≡ b → c ≡ d → ◌≡◌ {A = ℕ × ℕ} (a, c) (b, d)
    pair_eq e h = rw (e, h) refl

accepted :
    (pitch yaw : ℕ)
    → (836 ≤ pitch) × (pitch ≤ 1256)
    → (810 ≤ yaw) × (yaw ≤ 1295)
    → check_stick (stick pitch yaw) ≡ ok (stick pitch yaw)
unfolding check_stick
accepted pitch yaw p y =
    rw
      (le→leb 836 pitch (p.0), le→leb pitch 1256 (p.1), le→leb 810 yaw (y.0), le→leb yaw 1295 (y.1))
      refl

module _ (pitch yaw sequence : ℕ) (p : (836 ≤ pitch) × (pitch ≤ 1256))
    (y : (810 ≤ yaw) × (yaw ≤ 1295)) (word : sequence ≤ 65535) where
  abbrev fields : DumlFields
  fields = stick_fields (stick pitch yaw) sequence

  ten : length (encode_payload (stick pitch yaw)) ≡ 10
  unfolding to_little
  ten = refl

  enc : encode_duml_frame fields ≡ ok (wire fields)
  enc = encode-Within fields (omega (arith, word)) (omega (arith, ten))

  frame_accepted :
      (d : DumlFrame) → Carries fields d → validate_stick_frame d ≡ ok (stick pitch yaw)
  unfolding validate_stick_frame
  frame_accepted d c =
      let count : length d.payload ≡ 10 = ap length c.payload ∙ ten in
      let said : check_stick (stick_of d.payload) ≡ ok (stick pitch yaw) =
        ap (λ t. check_stick (stick_of t)) c.payload
        ∙ ap check_stick (payload_read pitch yaw (omega (arith, p)) (omega (arith, y)))
        ∙ accepted pitch yaw p y in
      rw (c.crc8_valid, c.crc16_valid, c.sender, c.receiver, c.flags, c.cmd_set, c.cmd_id, count)
        said

  -- A command within the captured envelope is encoded, and the last check before the socket reads
  -- exactly this command from the frame.
  pub validate-encode_stick :
      (raw : List ℕ) × (encode_stick (stick pitch yaw) sequence ≡ ok raw)
      × (validate_stick_duml raw ≡ ok (stick pitch yaw))
  unfolding encode_stick checked_frame validate_stick_duml
  validate-encode_stick =
      let (d, dec, c) = decoded_again fields (wire fields) enc in
      (wire fields, rw (enc, dec, c.crc8_valid, c.crc16_valid) refl, rw dec (frame_accepted d c))
