-- ===== src/Commands/Frames.antt =====
-- protocol/commands.py, livestream_commands.py and devices/pocket3_normal.py: what is built is accepted.
use openframetap.Prelude.{
  err, some, ◌&&◌, leb, Bool-cases, subst, suc, ◌+◌, length-append, get_or, ◌≤◌, ◌++◌, ◌∷◌, map_err,
  ==_refl, length, Result, refl, ◌∙◌, none, inr, append-nil, sym, ap, inl, arith, [], Option, ok,
  ◌≡◌, ℕ, List, false, true,
}
use openframetap.Commands.{CommandDefinition, entry}
use openframetap.Commands.Livestream.{
  LivestreamError, build_wifi_connect_frame, wifi_connect, request, pack_dji_string,
}
use openframetap.Commands.Normal.{
  NormalError, NormalFields, normal_fields, build_normal_frame, validate_normal_frame, build_with,
  validate_with, normal_request,
}
use openframetap.Commands.Payloads.{validate_wifi_connect}
use openframetap.Commands.Validate.{validate_command_frame, validate_plain, validate_by_name}
use openframetap.Duml.{encryption, DumlFrame, DumlFields, encode_duml_frame, decode_duml_frame}
use openframetap.Duml.RoundTrip.{decode-encode, Carries}
use openframetap.Network.{Readers}
use openframetap.Texts.{text, starts_with}
use openframetap.Bytes.{same_bytes, same_bytes_refl}

-- A frame that is encoded is decoded with the same fields.
pub decoded_again :
    (f : DumlFields) (raw : List ℕ)
    → encode_duml_frame f ≡ ok raw
    → (d : DumlFrame) × (decode_duml_frame raw false ≡ ok d) × Carries f d
decoded_again f raw e =
    let (d, dec, c, same) = decode-encode f raw [] false e (inl refl) in
    (d, ap (λ t. decode_duml_frame t false) (sym (append-nil raw)) ∙ dec, c)

pub map_err-ok :
    {E F A : Type 0} (f : E → F) (r : Result E A) (v : A) → map_err f r ≡ ok v → r ≡ ok v
map_err-ok f (ok a) v h = cc
map_err-ok f (err e) v h = absurd (cc h)

-- The frame of any name of the normal mode is decoded to one that the check for that name accepts.
pub build_normal_frame-validates :
    (name : List ℕ) (sequence : ℕ) (raw : List ℕ)
    → build_normal_frame name sequence ≡ ok raw
    → (d : DumlFrame) × (decode_duml_frame raw false ≡ ok d)
      × (validate_normal_frame name d ≡ ok tt)
unfolding build_normal_frame validate_normal_frame
build_normal_frame-validates name sequence raw e = known (entry normal_fields name) e
  where
    known :
        (o : Option NormalFields)
        → build_with o sequence ≡ ok raw
        → (d : DumlFrame) × (decode_duml_frame raw false ≡ ok d) × (validate_with o d ≡ ok tt)
    known none e = absurd (ground arith)
    known (some fields) e =
        let (d, dec, c) =
          decoded_again (normal_request fields sequence) raw
            (map_err-ok NormalError.encode_failed _ raw e) in
        (
          d,
          dec,
          rw
              (
                c.sender,
                c.receiver,
                c.cmd_set,
                c.cmd_id,
                c.flags,
                c.payload,
                c.crc8_valid,
                c.crc16_valid,
                ==_refl fields.receiver,
                ==_refl fields.cmd_set,
                ==_refl fields.cmd_id,
                same_bytes_refl fields.payload,
              )
              refl,
        )

-- A request that the checks before the branches by name accept.
pub plain_request :
    (r : Readers) (command : CommandDefinition) (d : DumlFrame)
    → d.flags ≡ 0x40
    → command.ack_required ≡ true
    → starts_with command.name (text "normal_") ≡ false
    → validate_command_frame r command d ≡ validate_by_name r command.name d
unfolding validate_command_frame validate_plain encryption
plain_request r command d flags ack ordinary = simp (flags, ack, ordinary) refl

-- The item behind a list and its head.
behind :
    (n : ℕ) (xs : List ℕ) (y : ℕ) (ys : List ℕ) → get_or (n ∷ (xs ++ y ∷ ys)) (1 + length xs) 0 ≡ y
behind n xs y ys = subst (λ i. get_or (n ∷ (xs ++ y ∷ ys)) i 0 ≡ y) (next (length xs)) (at_end xs)
  where
    next : (n : ℕ) → suc n ≡ 1 + n
    next n = omega arith

    at_end : (xs : List ℕ) → get_or (xs ++ y ∷ ys) (length xs) 0 ≡ y
    at_end [] = refl
    at_end (x ∷ xs) = at_end xs

joins :
    (ssid psk : List ℕ) (d : DumlFrame)
    → d.payload ≡ length ssid ∷ (ssid ++ length psk ∷ psk)
    → 1 ≤ length ssid
    → 8 ≤ length psk
    → length psk ≤ 63
    → validate_wifi_connect d ≡ ok tt
unfolding validate_wifi_connect
joins ssid psk d e named long short =
    let first : get_or d.payload 0 0 ≡ length ssid = rw e refl in
    let second : get_or d.payload (1 + length ssid) 0 ≡ length psk =
      rw e (behind (length ssid) ssid (length psk) psk) in
    let count : length d.payload ≡ length ssid + length psk + 2 =
      rw e (omega (arith, length-append ssid (length psk ∷ psk))) in
    rw (first, second, count) (ground arith)

packs :
    (value : List ℕ)
    → 1 ≤ length value
    → length value ≤ 255
    → pack_dji_string value ≡ ok (length value ∷ value)
packs value some_text short = ground arith

by_wifi_connect :
    (r : Readers) (d : DumlFrame) → validate_by_name r wifi_connect.name d ≡ validate_wifi_connect d
unfolding validate_by_name same_bytes
by_wifi_connect r d = refl

-- The frame to join a Wi-Fi network is decoded to one that passes the check, and carries the name
-- and the password, each behind its length.
pub build_wifi_connect-validates :
    (r : Readers) (ssid psk : List ℕ) (sequence : ℕ) (raw : List ℕ)
    → build_wifi_connect_frame ssid psk sequence ≡ ok raw
    → (d : DumlFrame) × (decode_duml_frame raw false ≡ ok d)
      × (validate_command_frame r wifi_connect d ≡ ok tt)
      × (d.payload ≡ length ssid ∷ (ssid ++ length psk ∷ psk))
unfolding build_wifi_connect_frame
build_wifi_connect-validates r ssid psk sequence raw e =
    elim (Bool-cases (leb 1 (length ssid) && leb (length ssid) 32)) [
      | inr bad ↦ absurd (cc (rw bad at e))
      | inl named ↦ elim (Bool-cases (leb 8 (length psk) && leb (length psk) 63)) [
        | inr bad ↦ absurd (cc (rw (named, bad) at e))
        | inl locked ↦
            let payload = length ssid ∷ (ssid ++ length psk ∷ psk) in
            let (d, dec, c) = decoded_again (request wifi_connect sequence payload) raw (
              map_err-ok LivestreamError.encode_failed _ raw (
                rw
                  (
                    named,
                    locked,
                    packs ssid (ground (arith, named)) (ground (arith, named)),
                    packs psk (ground (arith, locked)) (ground (arith, locked)),
                  )
                  at e)) in
            (
              d,
              dec,
              plain_request r wifi_connect d c.flags refl refl
                  ∙ by_wifi_connect r d
                  ∙ joins ssid psk d c.payload (ground (arith, named)) (ground (arith, locked))
                      (ground (arith, locked)),
              c.payload,
            )
      ]
    ]
