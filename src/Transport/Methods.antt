-- ===== src/Transport/Methods.antt =====
-- transport/dji_wifi_udp.py: every method hands to the socket only what it may.
use openframetap.Prelude.{
  ℕ, Bool, true, false, Option, none, some, List, ◌≡◌, refl, Bool-cases, inl, inr, Result, ok, err,
  subst,
}
use openframetap.DjiWifi.{EnvelopeError}
use openframetap.DjiWifi.Flow.{FlowStatus, encode_operator_flow_ack}
use openframetap.DjiWifi.Sequencer.{Sequencer}
use openframetap.StickProfile.{StickCommand}
use openframetap.Transport.{
  ActionError, envelope_refused, Transport, TransportError, HandshakeProfile, encode_handshake,
  open_transport, opened, shake_hands, handshake_request, send_to, wire_sequence,
}
use openframetap.Transport.Sends.{
  Sent, send_frame, stick_frame, on_session, transport_stick, after_keepalive, keepalive_frame,
  keepalive_numbered, transport_keepalive, after_ack, send_ack, ack_on_session, ack_status,
  is_too_soon,
}
use openframetap.Transport.Camera.{
  CameraAction, ActionFields, action_fields, camera_checked, send_camera_frame, camera_frame,
  transport_camera,
}
use openframetap.Dicts.{store}
use openframetap.Transport.Permits.{
  a_handshake, an_ack, IsPermitted, send_to-IsPermitted, send_frame-IsPermitted, stick-May,
  keepalive-May, camera_frame-IsPermitted,
}

module _ (p : HandshakeProfile) where
  on_session-IsPermitted :
      (t : Transport) (is_open : Bool) (s : Option Sequencer) (go : Sequencer → Sent)
      → ((s : Sequencer) → IsPermitted p (go s).0)
      → IsPermitted p t
      → IsPermitted p (on_session t is_open s go).0
  on_session-IsPermitted t true (some s) go each h = each s
  on_session-IsPermitted t true none go each h = h
  on_session-IsPermitted t false s go each h = h

  pub stick-IsPermitted :
      (command : StickCommand) (taken : Bool) (t : Transport)
      → IsPermitted p t
      → IsPermitted p (transport_stick command taken t).0
  unfolding transport_stick
  stick-IsPermitted command taken t h =
      on_session-IsPermitted t t.is_open t.sequencer
        (λ s. send_frame taken s t (stick_frame command t.duml_sequence))
        (λ s.
          send_frame-IsPermitted p taken s t (stick_frame command t.duml_sequence)
            (stick-May p command t.duml_sequence) h)
        h

  after_keepalive-IsPermitted :
      (sequence : ℕ) (r : Sent) → IsPermitted p r.0 → IsPermitted p (after_keepalive sequence r).0
  after_keepalive-IsPermitted sequence (t, ok d) h = record { same = h.same; wire = h.wire }
  after_keepalive-IsPermitted sequence (t, err e) h = record { same = h.same; wire = h.wire }

  numbered-IsPermitted :
      (taken : Bool) (now : ℕ) (t : Transport) (s : Sequencer) (r : Result TransportError ℕ)
      → IsPermitted p t
      → IsPermitted p (keepalive_numbered taken now t s r).0
  numbered-IsPermitted taken now t s (err e) h = h
  numbered-IsPermitted taken now t s (ok sequence) h = after_keepalive-IsPermitted sequence _ (
      send_frame-IsPermitted p taken s
        (record t { pending_keepalives = store t.pending_keepalives sequence now })
        (keepalive_frame sequence) (keepalive-May p sequence)
        (record { same = h.same; wire = h.wire }))

  pub camera-IsPermitted :
      (a : CameraAction) (taken : Bool) (t : Transport)
      → IsPermitted p t
      → IsPermitted p (transport_camera a taken t).0
  unfolding transport_camera
  camera-IsPermitted a taken t h = checked (action_fields a)
    where
      checked : (r : Result ActionError ActionFields) → IsPermitted p (camera_checked a taken t r).0
      checked (err e) = h
      checked (ok fields) =
          on_session-IsPermitted t t.is_open t.sequencer
            (λ s. send_camera_frame taken s t (camera_frame a t.duml_sequence))
            (λ s. camera_frame-IsPermitted p taken s t a t.duml_sequence h) h

  pub keepalive-IsPermitted :
      (taken : Bool) (now : ℕ) (t : Transport)
      → IsPermitted p t
      → IsPermitted p (transport_keepalive taken now t).0
  unfolding transport_keepalive
  keepalive-IsPermitted taken now t h =
      on_session-IsPermitted t t.is_open t.sequencer
        (λ s. keepalive_numbered taken now t s (wire_sequence t.duml_sequence))
        (λ s. numbered-IsPermitted taken now t s (wire_sequence t.duml_sequence) h) h

  after_ack-IsPermitted :
      (now : ℕ) (datagram : List ℕ) (r : Transport × Result TransportError (Unit {0}))
      → IsPermitted p r.0
      → IsPermitted p (after_ack now datagram r).0
  after_ack-IsPermitted now datagram (t, ok done) h = record { same = h.same; wire = h.wire }
  after_ack-IsPermitted now datagram (t, err e) h = h

  send_ack-IsPermitted :
      (taken : Bool) (now : ℕ) (t : Transport) (status : FlowStatus)
      (r : Result EnvelopeError (List ℕ))
      → encode_operator_flow_ack status t.last_sent_transport_sequence ≡ r
      → IsPermitted p t
      → IsPermitted p (send_ack taken now t r).0
  send_ack-IsPermitted taken now t status (err e) made h = h
  send_ack-IsPermitted taken now t status (ok datagram) made h =
      after_ack-IsPermitted now datagram (send_to taken datagram t) (
        send_to-IsPermitted p taken datagram t (an_ack status t.last_sent_transport_sequence made)
          h)

  status-IsPermitted :
      (taken : Bool) (now : ℕ) (t : Transport) (status : FlowStatus) (is_open : Bool)
      (s : Option Sequencer)
      → IsPermitted p t
      → IsPermitted p (ack_on_session taken now t status is_open s).0
  status-IsPermitted taken now t status false s h = h
  status-IsPermitted taken now t status true none h = h
  status-IsPermitted taken now t status true (some s) h =
      elim (Bool-cases (is_too_soon now t.last_flow_ack_ns)) [
        | inl e ↦ rw e h
        | inr e ↦ rw e (send_ack-IsPermitted taken now t status _ refl h)
      ]

  pub ack-IsPermitted :
      (taken : Bool) (now : ℕ) (t : Transport) (status : Option FlowStatus)
      → IsPermitted p t
      → IsPermitted p (ack_status taken now t status).0
  ack-IsPermitted taken now t none h = h
  ack-IsPermitted taken now t (some status) h =
      status-IsPermitted taken now t status t.is_open t.sequencer h

  opened-IsPermitted :
      (t : Transport) (r : Result TransportError (Unit {0}))
      → IsPermitted p t
      → IsPermitted p (opened t r).0
  opened-IsPermitted t (ok done) h = record { same = h.same; wire = h.wire }
  opened-IsPermitted t (err e) h = record { same = h.same; wire = h.wire }

  shake_hands-IsPermitted :
      (t : Transport) (arrivals : List (List ℕ × Bool))
      (r : Transport × Result TransportError (Unit {0}))
      → IsPermitted p r.0
      → IsPermitted p (shake_hands t arrivals r).0
  shake_hands-IsPermitted t arrivals (b, ok done) h = opened-IsPermitted b _ h
  shake_hands-IsPermitted t arrivals (b, err e) h = opened-IsPermitted b (err e) h

  handshake_request-IsPermitted :
      (t : Transport) (taken : Bool) (arrivals : List (List ℕ × Bool))
      (r : Result EnvelopeError (List ℕ))
      → encode_handshake t.profile ≡ r
      → IsPermitted p t
      → IsPermitted p (handshake_request t taken arrivals r).0
  handshake_request-IsPermitted t taken arrivals (err e) made h =
      opened-IsPermitted t (err (envelope_refused e)) h
  handshake_request-IsPermitted t taken arrivals (ok datagram) made h =
      shake_hands-IsPermitted t arrivals (send_to taken datagram t) (
        send_to-IsPermitted p taken datagram t
          (a_handshake (subst (λ q. encode_handshake q ≡ ok datagram) h.same made)) h)

  pub open-IsPermitted :
      (taken : Bool) (arrivals : List (List ℕ × Bool)) (t : Transport)
      → IsPermitted p t
      → IsPermitted p (open_transport taken arrivals t).0
  unfolding open_transport
  open-IsPermitted taken arrivals t h = elim (Bool-cases t.is_open) [
    | inl e ↦ simp e h
    | inr e ↦
        simp e (handshake_request-IsPermitted t taken arrivals (encode_handshake t.profile) refl h)
  ]
