-- ===== src/Commands/Replies.antt =====
-- devices/pocket3_normal.py: the reply to a registration.
use openframetap.Prelude.{
  refl, Bool-cases, inr, inl, [], ◌⊎◌, ◌∷◌, ok, Bool, ◌==◌, ℕ, length, ◌≡◌, if◌then◌else◌, List,
  false, true,
}
use openframetap.Commands.Normal.{registration_reply, is_challenge, NormalError, device_information}
use openframetap.Commands.Frames.{decoded_again, map_err-ok}
use openframetap.Duml.{DumlFrame, DumlFields, decode_duml_frame}

-- How a reply answers its request.
pub record Answers (request reply : DumlFrame) : Type 0 where
  pub to_camera : (reply.sender ≡ 2) × (reply.receiver ≡ 0x48)
  pub response : reply.flags ≡ 0x80
  pub sequence : reply.sequence ≡ request.sequence
  pub command : (reply.cmd_set ≡ 0) × (reply.cmd_id ≡ request.cmd_id)
  pub valid : (reply.crc8_valid ≡ true) × (reply.crc16_valid ≡ true)
  pub size : (length reply.payload ≡ 64) ⊎ (length reply.payload ≡ 1)

abbrev pub answer : DumlFrame → DumlFields
answer request = record {
  sender = 2;
  receiver = 0x48;
  sequence = request.sequence;
  flags = 0x80;
  cmd_set = 0;
  cmd_id = request.cmd_id;
  payload = if request.cmd_id == 0x81 then device_information else 0 ∷ [];
  version = 1;
}

-- Only a challenge is replied to, and the reply is decoded to a valid frame for the camera, with the
-- challenge's sequence number and command.
pub registration_reply-Answers :
    (request : DumlFrame) (raw : List ℕ)
    → registration_reply request ≡ ok raw
    → (is_challenge request ≡ true)
      × ((reply : DumlFrame) × (decode_duml_frame raw false ≡ ok reply) × Answers request reply)
unfolding registration_reply
registration_reply-Answers request raw e = elim (Bool-cases (is_challenge request)) [
  | inr bad ↦ absurd (cc (rw bad at e))
  | inl good ↦
      let (d, dec, c) =
        decoded_again (answer request) raw
          (map_err-ok NormalError.encode_failed _ raw (rw good at e)) in
      (
        good,
        (
          d,
          dec,
          record {
            to_camera = (c.sender, c.receiver);
            response = c.flags;
            sequence = c.sequence;
            command = (c.cmd_set, c.cmd_id);
            valid = (c.crc8_valid, c.crc16_valid);
            size = rw c.payload (sizes (request.cmd_id == 0x81));
          },
        ),
      )
]
  where
    sizes :
        (b : Bool)
        → (length (if b then device_information else 0 ∷ []) ≡ 64)
          ⊎ (length (if b then device_information else 0 ∷ []) ≡ 1)
    sizes true = inl refl
    sizes false = inr refl
