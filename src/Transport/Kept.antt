-- ===== src/Transport/Kept.antt =====
-- transport/dji_wifi_udp.py: what does not change the acknowledgements.
use openframetap.Prelude.{
  ℕ, Bool, true, false, Option, none, some, List, ◌==◌, ◌≡◌, refl, ◌∙◌, Bool-cases, inl, inr, not,
  Result, ok, err, arith,
}
use openframetap.Dicts.{store}
use openframetap.DjiWifi.{EnvelopeError, BasicHeader, parse_basic, device_status}
use openframetap.DjiWifi.Envelope.{Envelope, encode_envelope}
use openframetap.DjiWifi.Flow.{FlowStatus, parse_status, operator_peer_sequence}
use openframetap.DjiWifi.Sequencer.{Sequencer, build, observe_peer_sequence}
use openframetap.Transport.{
  ActionError, Transport, TransportError, open_transport, opened, shake_hands, handshake_request,
  encode_handshake, send_to,
}
use openframetap.Transport.Camera.{
  CameraAction, ActionFields, camera_checked, send_camera_built, send_camera_frame, camera_frame,
}
use openframetap.Transport.Sends.{
  Sent, after_sendto, send_encoded, checked_datagram, send_built, send_frame, on_session,
  after_keepalive, keepalive_frame, keepalive_numbered,
}
use openframetap.Transport.Receives.{
  Received, note_response, observed, note_peer, note_parsed, note_status, note_header,
  note_keepalive, then_keepalive, receive_octets, is_of_session,
}

-- The acknowledgements are as they were.
abbrev pub Kept : Transport → Transport → Type 0
Kept a b =
    (b.flow_ack_sent_count ≡ a.flow_ack_sent_count) × (b.last_flow_ack_ns ≡ a.last_flow_ack_ns)

then-Kept : (a b c : Transport) → Kept a b → Kept b c → Kept a c
then-Kept a b c g h = (h.0 ∙ g.0, h.1 ∙ g.1)

pub send_to-Kept : (taken : Bool) (d : List ℕ) (t : Transport) → Kept t (send_to taken d t).0
send_to-Kept true d t = (refl, refl)
send_to-Kept false d t = (refl, refl)

after_sendto-Kept :
    (e : Envelope) (d : List ℕ) (r : Transport × Result TransportError (Unit {0}))
    → Kept r.0 (after_sendto e d r).0
after_sendto-Kept e d (t, ok done) = (refl, refl)
after_sendto-Kept e d (t, err bad) = (refl, refl)

send_encoded-Kept :
    (taken : Bool) (e : Envelope) (t : Transport) (r : Result EnvelopeError (List ℕ))
    → Kept t (send_encoded taken e t r).0
send_encoded-Kept taken e t (err bad) = (refl, refl)
send_encoded-Kept taken e t (ok d) =
    then-Kept t (send_to taken d t).0 (after_sendto e d (send_to taken d t)).0
      (send_to-Kept taken d t) (after_sendto-Kept e d (send_to taken d t))

send_built-Kept :
    (taken : Bool) (t : Transport) (r : Sequencer × Result EnvelopeError Envelope)
    → Kept t (send_built taken t r).0
send_built-Kept taken t (s, err bad) = (refl, refl)
send_built-Kept taken t (s, ok e) =
    send_encoded-Kept taken e (record t { sequencer = some s }) (checked_datagram e)

pub send_frame-Kept :
    (taken : Bool) (s : Sequencer) (t : Transport) (r : Result TransportError (List ℕ))
    → Kept t (send_frame taken s t r).0
send_frame-Kept taken s t (err bad) = (refl, refl)
send_frame-Kept taken s t (ok duml) = send_built-Kept taken t (build s duml)

camera_built-Kept :
    (taken : Bool) (t : Transport) (r : Sequencer × Result EnvelopeError Envelope)
    → Kept t (send_camera_built taken t r).0
camera_built-Kept taken t (s, err bad) = (refl, refl)
camera_built-Kept taken t (s, ok e) =
    send_encoded-Kept taken e (record t { sequencer = some s }) (encode_envelope e)

camera_frame-Kept :
    (taken : Bool) (s : Sequencer) (t : Transport) (r : Result TransportError (List ℕ))
    → Kept t (send_camera_frame taken s t r).0
camera_frame-Kept taken s t (err bad) = (refl, refl)
camera_frame-Kept taken s t (ok duml) = camera_built-Kept taken t (build s duml)

pub on_session-Kept :
    (t : Transport) (is_open : Bool) (s : Option Sequencer) (go : Sequencer → Sent)
    → ((s : Sequencer) → Kept t (go s).0)
    → Kept t (on_session t is_open s go).0
on_session-Kept t true (some s) go each = each s
on_session-Kept t true none go each = (refl, refl)
on_session-Kept t false s go each = (refl, refl)

pub camera_checked-Kept :
    (a : CameraAction) (taken : Bool) (t : Transport) (r : Result ActionError ActionFields)
    → Kept t (camera_checked a taken t r).0
camera_checked-Kept a taken t (err e) = (refl, refl)
camera_checked-Kept a taken t (ok fields) =
    on_session-Kept t t.is_open t.sequencer
      (λ s. send_camera_frame taken s t (camera_frame a t.duml_sequence))
      (λ s. camera_frame-Kept taken s t (camera_frame a t.duml_sequence))

after_keepalive-Kept : (sequence : ℕ) (r : Sent) → Kept r.0 (after_keepalive sequence r).0
after_keepalive-Kept sequence (t, ok d) = (refl, refl)
after_keepalive-Kept sequence (t, err bad) = (refl, refl)

pub numbered-Kept :
    (taken : Bool) (now : ℕ) (t : Transport) (s : Sequencer) (r : Result TransportError ℕ)
    → Kept t (keepalive_numbered taken now t s r).0
numbered-Kept taken now t s (err bad) = (refl, refl)
numbered-Kept taken now t s (ok sequence) =
    let waiting : Transport = record t {
      pending_keepalives = store t.pending_keepalives sequence now;
    } in
    let fed : Sent = send_frame taken s waiting (keepalive_frame sequence) in
    then-Kept t fed.0 (after_keepalive sequence fed).0
      (send_frame-Kept taken s waiting (keepalive_frame sequence))
      (after_keepalive-Kept sequence fed)

opened-Kept : (t : Transport) (r : Result TransportError (Unit {0})) → Kept t (opened t r).0
opened-Kept t (ok done) = (refl, refl)
opened-Kept t (err bad) = (refl, refl)

shake_hands-Kept :
    (t : Transport) (arrivals : List (List ℕ × Bool))
    (r : Transport × Result TransportError (Unit {0}))
    → Kept r.0 (shake_hands t arrivals r).0
shake_hands-Kept t arrivals (b, ok done) = opened-Kept b _
shake_hands-Kept t arrivals (b, err bad) = opened-Kept b (err bad)

handshake_request-Kept :
    (t : Transport) (taken : Bool) (arrivals : List (List ℕ × Bool))
    (r : Result EnvelopeError (List ℕ))
    → Kept t (handshake_request t taken arrivals r).0
handshake_request-Kept t taken arrivals (err bad) = (refl, refl)
handshake_request-Kept t taken arrivals (ok d) =
    then-Kept t (send_to taken d t).0 (shake_hands t arrivals (send_to taken d t)).0
      (send_to-Kept taken d t) (shake_hands-Kept t arrivals (send_to taken d t))

pub open-Kept :
    (taken : Bool) (arrivals : List (List ℕ × Bool)) (t : Transport)
    → Kept t (open_transport taken arrivals t).0
unfolding open_transport
open-Kept taken arrivals t = elim (Bool-cases t.is_open) [
  | inl e ↦ simp e (refl, refl)
  | inr e ↦ simp e (handshake_request-Kept t taken arrivals (encode_handshake t.profile))
]

observed-Kept :
    (sequence : ℕ) (t : Transport) (r : Sequencer × Result EnvelopeError Bool)
    → Kept t (observed sequence t r).0
observed-Kept sequence t (s, ok true) = (refl, refl)
observed-Kept sequence t (s, ok false) = (refl, refl)
observed-Kept sequence t (s, err bad) = (refl, refl)

peer-Kept :
    (t : Transport) (sequence : Option ℕ) (s : Option Sequencer) → Kept t (note_peer t sequence s).0
peer-Kept t none s = (refl, refl)
peer-Kept t (some sequence) none = (refl, refl)
peer-Kept t (some sequence) (some s) = observed-Kept sequence t (observe_peer_sequence s sequence)

parsed-Kept : (t : Transport) (r : Result EnvelopeError FlowStatus) → Kept t (note_parsed t r).0
parsed-Kept t (err bad) = (refl, refl)
parsed-Kept t (ok status) =
    peer-Kept (record t { latest_flow_status = some status }) (operator_peer_sequence status)
      t.sequencer

response-Kept : (basic : BasicHeader) (t : Transport) → Kept t (note_response basic t)
response-Kept basic t = ground arith

status-Kept :
    (octets : List ℕ) (basic : BasicHeader) (t : Transport) → Kept t (note_status octets basic t).0
unfolding note_status
status-Kept octets basic t = elim (Bool-cases (basic.wh_type == device_status)) [
  | inl e ↦ rw e (parsed-Kept t (parse_status octets))
  | inr e ↦ rw e (refl, refl)
]

header-Kept :
    (octets : List ℕ) (t : Transport) (r : Result EnvelopeError BasicHeader)
    → Kept t (note_header octets t r).0
header-Kept octets t (err bad) = (refl, refl)
header-Kept octets t (ok basic) = elim (Bool-cases (is_of_session t.profile.session_id basic)) [
  | inl e ↦ rw e (
      then-Kept t (note_response basic t) (note_status octets basic (note_response basic t)).0
        (response-Kept basic t) (status-Kept octets basic (note_response basic t)))
  | inr e ↦ rw e (refl, refl)
]

noted-Kept :
    (now : ℕ) (t : Transport) (sequence : Option ℕ) → Kept t (note_keepalive now t sequence)
noted-Kept now t none = (refl, refl)
noted-Kept now t (some sequence) = ground arith

pub receive-Kept :
    (octets : List ℕ) (expected : Bool) (now : ℕ) (t : Transport)
    → Kept t (receive_octets octets expected now t).0
unfolding receive_octets
receive-Kept octets expected now t = elim (Bool-cases (not t.is_open)) [
  | inl e ↦ rw e (refl, refl)
  | inr e ↦ rw e (elim (Bool-cases (not expected)) [
    | inl g ↦ rw g (refl, refl)
    | inr g ↦ rw g (
        then-Kept t (note_header octets t (parse_basic octets)).0
          (then_keepalive now octets (note_header octets t (parse_basic octets))).0
          (header-Kept octets t (parse_basic octets))
          (last (note_header octets t (parse_basic octets))))
  ])
]
  where
    last : (r : Received) → Kept r.0 (then_keepalive now octets r).0
    last (t, ok done) = noted-Kept now t _
    last (t, err bad) = (refl, refl)
