-- ===== src/Gimbal/Zero.antt =====
-- protocol/gimbal_commands.py and control/policy.py: the frame of rate zero asks for no movement.
use openframetap.Duml.{encode_duml_frame, DumlFields, DumlFrame, decode_duml_frame}
use openframetap.Duml.RoundTrip.{decode-encode}
use openframetap.Gimbal.Axes.{AxisProfile, build_axes_zero, validate_axis, build_axes_frame}
use openframetap.Gimbal.{speed_fields, speed_payload, build_speed_frame, SpeedProfile}
use openframetap.Floats.{within, pos, nought, Floats}
use openframetap.Prelude.{
  refl, subst, ◌∙◌, append-nil, sym, ap, Result-cases, inl, inr, leb, [], ◌∷◌, Bool-cases, ok, ◌≡◌,
  false, ℕ, List,
}
use openframetap.Bytes.{to_little}

-- Octets that decode to a payload of no pitch, no roll and no yaw, with the profile's flag.
abbrev pub HoldsStill : SpeedProfile → List ℕ → Type 0
HoldsStill profile frame =
    (d : DumlFrame) × (decode_duml_frame frame false ≡ ok d)
    × (d.payload ≡ 0 ∷ 0 ∷ 0 ∷ 0 ∷ 0 ∷ 0 ∷ profile.control_flag ∷ [])

-- A frame of rate zero, once built, is decoded with a payload of six zeros and the flag.
build_speed_frame-zero :
    (profile : SpeedProfile) (sequence : ℕ) (frame : List ℕ)
    → build_speed_frame profile sequence (pos 0) (pos 0) false ≡ ok frame
    → HoldsStill profile frame
unfolding build_speed_frame speed_payload to_little
build_speed_frame-zero profile sequence frame e = elim (Bool-cases (leb profile.control_flag 255)) [
  | inr large ↦ absurd (cc (rw large at e))
  | inl octet ↦
      let f : DumlFields =
        speed_fields profile sequence (0 ∷ 0 ∷ 0 ∷ 0 ∷ 0 ∷ 0 ∷ profile.control_flag ∷ []) in
      elim (Result-cases (encode_duml_frame f)) [
        | inr (bad, failed) ↦ absurd (cc (rw (octet, failed) at e))
        | inl (raw, encoded) ↦
            let (d, decoded, c, kept) = decode-encode f raw [] false encoded (inl refl) in
            let decoded' : decode_duml_frame raw false ≡ ok d =
              ap (λ t. decode_duml_frame t false) (sym (append-nil raw)) ∙ decoded in
            let same : raw ≡ frame =
              cc (rw (octet, encoded, decoded', c.crc8_valid, c.crc16_valid) at e) in
            (d, subst (λ t. decode_duml_frame t false ≡ ok d) same decoded', c.payload)
      ]
]

-- The frame of rate zero holds still, if zero rounds to no units.
pub build_axes_zero-HoldsStill :
    {W : Type 0} ⦃f : Floats W⦄ (profile : AxisProfile W) (sequence : ℕ) (frame : List ℕ)
    → f.rounded_units nought profile.reference_speed_dps ≡ pos 0
    → build_axes_zero profile sequence ≡ ok frame
    → HoldsStill profile.base frame
unfolding build_axes_zero build_axes_frame validate_axis
build_axes_zero-HoldsStill ⦃f = f⦄ profile sequence frame no_units e =
    elim (Bool-cases (within (f.literal 1 1) nought)) [
      | inr outside ↦ absurd (cc (rw outside at e))
      | inl inside ↦ build_speed_frame-zero profile.base sequence frame (rw (inside, no_units) at e)
    ]
