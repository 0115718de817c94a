-- ===== src/Gimbal/Envelope.antt =====
-- control/policy.py: an accepted frame stays within the safety envelope.
use openframetap.Floats.{abs}
use openframetap.Duml.{DumlFrame, decode_duml_frame}
use openframetap.Gimbal.{
  units_at, signed, SpeedProfile, ControlRate, validate_gimbal_control_frame, validate_decoded,
}
use openframetap.Prelude.{
  suc, refl, [], zero, ◌∷◌, ltb→le, ◌*◌, ltb, drop, ◌∙◌, ◌+◌, take, ap, Bool-cases, ◌⊎◌, subst,
  get_or, inl, inr, ◌≤◌, Result-cases, length, false, arith, ℕ, true, ok, ◌≡◌, List, Bool,
}
use openframetap.Bytes.{from_little}

-- The sixteen bits at an offset, the low octet first.
abbrev pub word_at : List ℕ → ℕ → ℕ
word_at payload offset = get_or payload offset 0 + 256 * get_or payload (suc offset) 0

-- Sixteen bits that are, in two's complement, between the limit's negative and the limit.
abbrev pub Slow : ℕ → ℕ → Type 0
Slow limit word = (word ≤ limit) ⊎ (65536 ≤ word + limit)

-- What an accepted frame is known to be: its payload is the pitch, the roll, the yaw and a flag.
pub record WithinEnvelope (profile : SpeedProfile) (d : DumlFrame) (rate : ControlRate)
    : Type 0 where
  pub crc8 : d.crc8_valid ≡ true
  pub crc16 : d.crc16_valid ≡ true
  pub sender : d.sender ≡ profile.sender
  pub receiver : d.receiver ≡ profile.receiver
  pub flags : d.flags ≡ profile.request_flags
  pub cmd_set : d.cmd_set ≡ profile.cmd_set
  pub cmd_id : d.cmd_id ≡ profile.cmd_id
  pub seven : length d.payload ≡ 7
  pub pitch : Slow profile.limit_units (word_at d.payload 0)
  pub roll : word_at d.payload 2 ≡ 0
  pub yaw : Slow profile.limit_units (word_at d.payload 4)
  pub control : get_or d.payload 6 0 ≡ profile.control_flag
  pub reported :
      (rate.pitch_units ≡ signed (word_at d.payload 0))
      × (rate.roll_units ≡ signed (word_at d.payload 2))
      × (rate.yaw_units ≡ signed (word_at d.payload 4))
  pub counted : rate.sequence ≡ d.sequence

-- What the checks establish, in the terms of the code.
record Checked (profile : SpeedProfile) (d : DumlFrame) (rate : ControlRate) : Type 0 where
  crc8 : d.crc8_valid ≡ true
  crc16 : d.crc16_valid ≡ true
  sender : d.sender ≡ profile.sender
  receiver : d.receiver ≡ profile.receiver
  flags : d.flags ≡ profile.request_flags
  cmd_set : d.cmd_set ≡ profile.cmd_set
  cmd_id : d.cmd_id ≡ profile.cmd_id
  seven : length d.payload ≡ 7
  pitch : abs (units_at d.payload 0) ≤ profile.limit_units
  roll : abs (units_at d.payload 2) ≡ 0
  yaw : abs (units_at d.payload 4) ≤ profile.limit_units
  control : get_or d.payload 6 0 ≡ profile.control_flag
  pitch_kept : rate.pitch_units ≡ units_at d.payload 0
  roll_kept : rate.roll_units ≡ units_at d.payload 2
  yaw_kept : rate.yaw_units ≡ units_at d.payload 4
  counted : rate.sequence ≡ d.sequence

validate_decoded-Checked :
    (profile : SpeedProfile) (live : Bool) (d : DumlFrame) (rate : ControlRate)
    → validate_decoded profile live d ≡ ok rate
    → Checked profile d rate × ((live ≡ true) → profile.pocket3_hardware_validated ≡ true)
unfolding validate_decoded
validate_decoded-Checked profile live d rate e = ground arith

-- Two octets taken at an offset are the word there.
from_little-word_at :
    (offset : ℕ) (payload : List ℕ)
    → from_little (take 2 (drop offset payload)) ≡ word_at payload offset
unfolding from_little
from_little-word_at zero [] = refl
from_little-word_at zero (a ∷ []) = refl
from_little-word_at zero (a ∷ b ∷ rest) = omega arith
from_little-word_at (suc offset) [] = refl
from_little-word_at (suc offset) (a ∷ rest) = from_little-word_at offset rest

pub units_at-word_at :
    (payload : List ℕ) (offset : ℕ) → units_at payload offset ≡ signed (word_at payload offset)
units_at-word_at payload offset = ap signed (from_little-word_at offset payload)

Slow-word : (limit word : ℕ) → abs (signed word) ≤ limit → Slow limit word
unfolding signed
Slow-word limit word h = elim (Bool-cases (ltb word 32768)) [
  | inl small ↦ inl (rw small at h)
  | inr large ↦ inr (omega (arith, ltb→le _ _ large, rw large at h))
]

no_word : (word : ℕ) → abs (signed word) ≡ 0 → word ≡ 0
unfolding signed
no_word word h = elim (Bool-cases (ltb word 32768)) [
  | inl small ↦ rw small at h
  | inr large ↦ absurd (omega (arith, rw large at h))
]

Checked-WithinEnvelope :
    (profile : SpeedProfile) (d : DumlFrame) (rate : ControlRate)
    → Checked profile d rate
    → WithinEnvelope profile d rate
Checked-WithinEnvelope profile d rate c = record {
  crc8 = c.crc8;
  crc16 = c.crc16;
  sender = c.sender;
  receiver = c.receiver;
  flags = c.flags;
  cmd_set = c.cmd_set;
  cmd_id = c.cmd_id;
  seven = c.seven;
  pitch =
      Slow-word profile.limit_units (word_at d.payload 0)
        (subst (λ z. abs z ≤ profile.limit_units) (units_at-word_at d.payload 0) c.pitch);
  roll =
      no_word (word_at d.payload 2) (subst (λ z. abs z ≡ 0) (units_at-word_at d.payload 2) c.roll);
  yaw =
      Slow-word profile.limit_units (word_at d.payload 4)
        (subst (λ z. abs z ≤ profile.limit_units) (units_at-word_at d.payload 4) c.yaw);
  control = c.control;
  reported = (
    c.pitch_kept ∙ units_at-word_at d.payload 0,
    c.roll_kept ∙ units_at-word_at d.payload 2,
    c.yaw_kept ∙ units_at-word_at d.payload 4,
  );
  counted = c.counted;
}

-- Octets that the policy accepts decode, with nothing left over, to a frame of the profile with valid
-- checksums and a payload of seven octets: a pitch and, from the fifth octet on, a yaw that are in
-- two's complement no larger than the limit, a roll of zero between them, and the profile's flag. The
-- rates that the policy reports are these three. If live validation is required, the profile has
-- been validated on the hardware.
pub validate-WithinEnvelope :
    (raw : List ℕ) (profile : SpeedProfile) (live : Bool) (rate : ControlRate)
    → validate_gimbal_control_frame raw profile live ≡ ok rate
    → (d : DumlFrame) × (decode_duml_frame raw false ≡ ok d)
      × WithinEnvelope profile d rate
      × ((live ≡ true) → profile.pocket3_hardware_validated ≡ true)
unfolding validate_gimbal_control_frame
validate-WithinEnvelope raw profile live rate e =
    elim (Result-cases (decode_duml_frame raw false)) [
      | inr (bad, failed) ↦ cc (rw failed at e)
      | inl (d, decoded) ↦
          let (checked, validated) =
            validate_decoded-Checked profile live d rate (rw decoded at e) in
          (d, decoded, Checked-WithinEnvelope profile d rate checked, validated)
    ]
