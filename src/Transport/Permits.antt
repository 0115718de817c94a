-- ===== src/Transport/Permits.antt =====
-- transport/dji_wifi_udp.py: the datagrams that the session may hand to the socket.
use openframetap.Prelude.{
  ℕ, Bool, true, false, some, List, ◌==◌, ◌≡◌, refl, ap, Result-cases, inl, inr, if◌then◌else◌, not,
  ◌&&◌, ◌||◌, arith, All, Result, ok, err, map_err, subst, ◌>>=◌, ◌>>◌, reject_if, length,
}
use openframetap.DjiWifi.{EnvelopeError}
use openframetap.DjiWifi.Envelope.{Envelope, operator_command, encode_envelope}
use openframetap.DjiWifi.Flow.{FlowStatus, encode_operator_flow_ack}
use openframetap.DjiWifi.Sequencer.{Sequencer, build}
use openframetap.Duml.{decode_duml_frame, DumlFrame}
use openframetap.StickProfile.{
  StickCommand, StickError, encode_stick, validate_stick_duml, validate_stick_frame, check_stick,
  stick_of, is_stick_frame, keepalive_prohibited, not_allowlisted, not_ten_bytes, crc_failed,
}
use openframetap.StickProfile.RoundTrip.{InEnvelope}
use openframetap.Transport.{
  ActionError, camera_refused, stick_refused, Transport, TransportError, HandshakeProfile,
  encode_handshake, send_to, wire_sequence,
}
use openframetap.Transport.Camera.{
  CameraAction, encode_action, send_camera_built, send_camera_frame, camera_frame,
}
use openframetap.Transport.Sends.{
  after_sendto, send_encoded, checked_datagram, send_built, send_frame, stick_frame,
  keepalive_frame,
}

-- A command that passes the last check lies within the captured envelope.
check_stick-InEnvelope : (said c : StickCommand) → check_stick said ≡ ok c → InEnvelope c
unfolding check_stick
check_stick-InEnvelope said c e = ground arith

-- What passes a guard is what comes behind it.
past {ℓ} :
    {E : Type 0} {A : Type ℓ} (b : Bool) (e : E) (r : Result E A) (a : A)
    → (reject_if b e >> r) ≡ ok a
    → r ≡ ok a
past true e r a h = absurd (cc h)
past false e r a h = h

frame-InEnvelope :
    (frame : DumlFrame) (c : StickCommand) → validate_stick_frame frame ≡ ok c → InEnvelope c
unfolding validate_stick_frame
frame-InEnvelope frame c e =
    let no_crc = not frame.crc8_valid || not frame.crc16_valid in
    let which =
      if frame.cmd_set == 4 && frame.cmd_id == 80 then keepalive_prohibited else not_allowlisted in
    let said = check_stick (stick_of frame.payload) in
    let counted = reject_if (not (length frame.payload == 10)) not_ten_bytes >> said in
    let listed = reject_if (not (is_stick_frame frame)) which >> counted in
    check_stick-InEnvelope (stick_of frame.payload) c (
      past (not (length frame.payload == 10)) not_ten_bytes said c
        (past (not (is_stick_frame frame)) which counted c (past no_crc crc_failed listed c e)))

validate-InEnvelope :
    (raw : List ℕ) (c : StickCommand) → validate_stick_duml raw ≡ ok c → InEnvelope c
unfolding validate_stick_duml
validate-InEnvelope raw c e = elim (Result-cases (decode_duml_frame raw false)) [
  | inr (bad, failed) ↦ absurd (cc (rw failed at e))
  | inl (frame, decoded) ↦ frame-InEnvelope frame c (rw decoded at e)
]

module _ (p : HandshakeProfile) where
  -- A datagram that the session may hand to the socket: its handshake, the acknowledgement of a
  -- status, or an envelope of the operator's policy around a stick command within the captured
  -- envelope or around a keepalive, or an envelope around one of the camera's actions.
  pub data Permitted (datagram : List ℕ) : Type 0 where
    a_handshake : encode_handshake p ≡ ok datagram → Permitted datagram
    an_ack :
        (status : FlowStatus) (last : ℕ)
        → encode_operator_flow_ack status last ≡ ok datagram
        → Permitted datagram
    a_stick :
        (envelope : Envelope) (command : StickCommand)
        → checked_datagram envelope ≡ ok datagram
        → validate_stick_duml envelope.payload ≡ ok command
        → InEnvelope command
        → Permitted datagram
    a_keepalive :
        (envelope : Envelope) (sequence : ℕ)
        → checked_datagram envelope ≡ ok datagram
        → keepalive_frame sequence ≡ ok envelope.payload
        → Permitted datagram
    an_action :
        (envelope : Envelope) (action : CameraAction) (sequence : ℕ)
        → encode_envelope envelope ≡ ok datagram
        → encode_action action sequence ≡ ok envelope.payload
        → Permitted datagram

  pub record IsPermitted (t : Transport) : Type 0 where
    pub same : t.profile ≡ p
    pub wire : All Permitted t.wire

  -- Frames that may be sent in an envelope.
  abbrev pub May : List ℕ → Type 0
  May duml =
      (envelope : Envelope) (datagram : List ℕ)
      → envelope.payload ≡ duml
      → checked_datagram envelope ≡ ok datagram
      → Permitted datagram

  pub send_to-IsPermitted :
      (taken : Bool) (datagram : List ℕ) (t : Transport)
      → Permitted datagram
      → IsPermitted t
      → IsPermitted (send_to taken datagram t).0
  send_to-IsPermitted true datagram t d h = record { same = h.same; wire = (d, h.wire) }
  send_to-IsPermitted false datagram t d h = record { same = h.same; wire = (d, h.wire) }

  after_sendto-IsPermitted :
      (envelope : Envelope) (datagram : List ℕ) (r : Transport × Result TransportError (Unit {0}))
      → IsPermitted r.0
      → IsPermitted (after_sendto envelope datagram r).0
  after_sendto-IsPermitted envelope datagram (t, ok done) h = record {
    same = h.same;
    wire = h.wire;
  }
  after_sendto-IsPermitted envelope datagram (t, err e) h = h

  send_encoded-IsPermitted :
      (taken : Bool) (envelope : Envelope) (t : Transport) (r : Result EnvelopeError (List ℕ))
      → ((datagram : List ℕ) → r ≡ ok datagram → Permitted datagram)
      → IsPermitted t
      → IsPermitted (send_encoded taken envelope t r).0
  send_encoded-IsPermitted taken envelope t (err e) may h = h
  send_encoded-IsPermitted taken envelope t (ok datagram) may h =
      after_sendto-IsPermitted envelope datagram (send_to taken datagram t)
        (send_to-IsPermitted taken datagram t (may datagram refl) h)

  build-payload :
      (s s' : Sequencer) (duml : List ℕ) (envelope : Envelope)
      → build s duml ≡ (s', ok envelope)
      → envelope.payload ≡ duml
  unfolding build operator_command
  build-payload s s' duml envelope e = ground arith

  send_built-IsPermitted :
      (taken : Bool) (t : Transport) (duml : List ℕ) (r : Sequencer × Result EnvelopeError Envelope)
      → May duml
      → ((envelope : Envelope) → r.1 ≡ ok envelope → envelope.payload ≡ duml)
      → IsPermitted t
      → IsPermitted (send_built taken t r).0
  send_built-IsPermitted taken t duml (s, err e) may same h = record {
    same = h.same;
    wire = h.wire;
  }
  send_built-IsPermitted taken t duml (s, ok envelope) may same h =
      send_encoded-IsPermitted taken envelope (record t { sequencer = some s })
        (checked_datagram envelope) (λ datagram e. may envelope datagram (same envelope refl) e)
        (record { same = h.same; wire = h.wire })

  pub send_frame-IsPermitted :
      (taken : Bool) (s : Sequencer) (t : Transport) (r : Result TransportError (List ℕ))
      → ((duml : List ℕ) → r ≡ ok duml → May duml)
      → IsPermitted t
      → IsPermitted (send_frame taken s t r).0
  send_frame-IsPermitted taken s t (err e) may h = h
  send_frame-IsPermitted taken s t (ok duml) may h =
      send_built-IsPermitted taken t duml (build s duml) (may duml refl)
        (λ envelope e.
          build-payload s (build s duml).0 duml envelope (ap (λ r. ((build s duml).0, r)) e))
        h

  pub stick-May :
      (command : StickCommand) (counter : ℕ) (duml : List ℕ)
      → stick_frame command counter ≡ ok duml
      → May duml
  unfolding stick_frame
  stick-May command counter duml made envelope datagram same sent =
      let (said, read) = last_check (wire_sequence counter) made in
      let reads : validate_stick_duml envelope.payload ≡ ok said = rw same read in
      a_stick envelope said sent reads (validate-InEnvelope envelope.payload said reads)
    where
      validated :
          (raw : List ℕ)
          → (map_err stick_refused (validate_stick_duml raw) >>= λ c. ok raw) ≡ ok duml
          → (c : StickCommand) × (validate_stick_duml duml ≡ ok c)
      validated raw e = elim (Result-cases (validate_stick_duml raw)) [
        | inr (bad, failed) ↦ absurd (cc (rw failed at e))
        | inl (c, fine) ↦
            let same_raw : raw ≡ duml = cc (rw fine at e) in
            (c, subst (λ r. validate_stick_duml r ≡ ok c) same_raw fine)
      ]

      encoded_frame :
          (r : Result StickError (List ℕ))
          → (map_err stick_refused r >>= λ raw.
              map_err stick_refused (validate_stick_duml raw) >>= λ c. ok raw)
            ≡ ok duml
          → (c : StickCommand) × (validate_stick_duml duml ≡ ok c)
      encoded_frame (err e) h = absurd (cc h)
      encoded_frame (ok raw) h = validated raw h

      last_check :
          (r : Result TransportError ℕ)
          → (r >>= λ sequence. map_err stick_refused (encode_stick command sequence) >>= λ raw.
              map_err stick_refused (validate_stick_duml raw) >>= λ c. ok raw)
            ≡ ok duml
          → (c : StickCommand) × (validate_stick_duml duml ≡ ok c)
      last_check (err e) h = absurd (cc h)
      last_check (ok sequence) h = encoded_frame (encode_stick command sequence) h

  -- The frame of an action, in an envelope that is not checked.
  camera_built-IsPermitted :
      (taken : Bool) (t : Transport) (duml : List ℕ) (a : CameraAction) (sequence : ℕ)
      (r : Sequencer × Result EnvelopeError Envelope)
      → encode_action a sequence ≡ ok duml
      → ((envelope : Envelope) → r.1 ≡ ok envelope → envelope.payload ≡ duml)
      → IsPermitted t
      → IsPermitted (send_camera_built taken t r).0
  camera_built-IsPermitted taken t duml a sequence (s, err e) made same h = record {
    same = h.same;
    wire = h.wire;
  }
  camera_built-IsPermitted taken t duml a sequence (s, ok envelope) made same h =
      send_encoded-IsPermitted taken envelope (record t { sequencer = some s })
        (encode_envelope envelope)
        (λ datagram e. an_action envelope a sequence e (rw (same envelope refl) made))
        (record { same = h.same; wire = h.wire })

  pub camera_frame-IsPermitted :
      (taken : Bool) (s : Sequencer) (t : Transport) (a : CameraAction) (counter : ℕ)
      → IsPermitted t
      → IsPermitted (send_camera_frame taken s t (camera_frame a counter)).0
  unfolding camera_frame
  camera_frame-IsPermitted taken s t a counter h = numbered (wire_sequence counter)
    where
      encoded :
          (sequence : ℕ) (r : Result ActionError (List ℕ))
          → encode_action a sequence ≡ r
          → IsPermitted (send_camera_frame taken s t (map_err camera_refused r)).0
      encoded sequence (err e) made = h
      encoded sequence (ok duml) made =
          camera_built-IsPermitted taken t duml a sequence (build s duml) made
            (λ envelope e.
              build-payload s (build s duml).0 duml envelope (ap (λ r. ((build s duml).0, r)) e))
            h

      numbered :
          (r : Result TransportError ℕ)
          → IsPermitted
              (send_camera_frame taken s t
                (r >>= λ sequence. map_err camera_refused (encode_action a sequence))).0
      numbered (err e) = h
      numbered (ok sequence) = encoded sequence (encode_action a sequence) refl

  pub keepalive-May : (sequence : ℕ) (duml : List ℕ) → keepalive_frame sequence ≡ ok duml → May duml
  keepalive-May sequence duml made envelope datagram same sent =
      a_keepalive envelope sequence sent (rw same made)
