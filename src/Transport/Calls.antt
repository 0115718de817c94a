-- ===== src/Transport/Calls.antt =====
-- transport/dji_wifi_udp.py: sequences of calls.
use openframetap.Prelude.{
  ℕ, Bool, true, false, Option, none, some, List, [], ◌∷◌, ◌==◌, refl, Bool-cases, inl, inr, not,
  All, Result, ok, err,
}
use openframetap.Dicts.{has}
use openframetap.DjiWifi.{EnvelopeError, BasicHeader, parse_basic, device_status}
use openframetap.DjiWifi.Flow.{FlowStatus, parse_status, operator_peer_sequence}
use openframetap.DjiWifi.Sequencer.{Sequencer, observe_peer_sequence}
use openframetap.StickProfile.{StickCommand}
use openframetap.Transport.{
  Transport, HandshakeProfile, new_transport, open_transport, close_transport,
}
use openframetap.Transport.Camera.{CameraAction, transport_camera}
use openframetap.Transport.Sends.{transport_stick, transport_keepalive, transport_ack}
use openframetap.Transport.Receives.{
  Received, note_response, observed, note_peer, note_parsed, note_status, note_header,
  note_keepalive, then_keepalive, receive_octets, is_of_session, response_type,
}
use openframetap.Transport.Permits.{Permitted, IsPermitted}
use openframetap.Transport.Methods.{
  camera-IsPermitted, stick-IsPermitted, keepalive-IsPermitted, ack-IsPermitted, open-IsPermitted,
}

-- A call of the session, with what the socket and the clock answer.
pub data SessionCall : Type 0 where
  opening : Bool → List (List ℕ × Bool) → SessionCall
  stick : StickCommand → Bool → SessionCall
  camera_action : CameraAction → Bool → SessionCall
  keepalive : Bool → ℕ → SessionCall
  flow_ack : Bool → ℕ → SessionCall
  receiving : List ℕ → Bool → ℕ → SessionCall
  closing : SessionCall

unfoldable pub act : SessionCall → Transport → Transport
act (opening taken arrivals) t = (open_transport taken arrivals t).0
act (stick command taken) t = (transport_stick command taken t).0
act (camera_action a taken) t = (transport_camera a taken t).0
act (keepalive taken now) t = (transport_keepalive taken now t).0
act (flow_ack taken now) t = (transport_ack taken now t).0
act (receiving octets expected now) t = (receive_octets octets expected now t).0
act closing t = close_transport t

-- calls, the first one first
unfoldable pub acts : List SessionCall → Transport → Transport
acts [] t = t
acts (call ∷ rest) t = acts rest (act call t)

module _ (p : HandshakeProfile) where
  response-IsPermitted :
      (basic : BasicHeader) (t : Transport)
      → IsPermitted p t
      → IsPermitted p (note_response basic t)
  response-IsPermitted basic t h = elim (Bool-cases (basic.wh_type == response_type)) [
    | inl e ↦ rw e (record { same = h.same; wire = h.wire })
    | inr e ↦ rw e h
  ]

  observed-IsPermitted :
      (sequence : ℕ) (t : Transport) (r : Sequencer × Result EnvelopeError Bool)
      → IsPermitted p t
      → IsPermitted p (observed sequence t r).0
  observed-IsPermitted sequence t (s, ok true) h = record { same = h.same; wire = h.wire }
  observed-IsPermitted sequence t (s, ok false) h = record { same = h.same; wire = h.wire }
  observed-IsPermitted sequence t (s, err e) h = record { same = h.same; wire = h.wire }

  peer-IsPermitted :
      (t : Transport) (sequence : Option ℕ) (s : Option Sequencer)
      → IsPermitted p t
      → IsPermitted p (note_peer t sequence s).0
  peer-IsPermitted t none s h = record { same = h.same; wire = h.wire }
  peer-IsPermitted t (some sequence) none h = h
  peer-IsPermitted t (some sequence) (some s) h =
      observed-IsPermitted sequence t (observe_peer_sequence s sequence) h

  parsed-IsPermitted :
      (t : Transport) (r : Result EnvelopeError FlowStatus)
      → IsPermitted p t
      → IsPermitted p (note_parsed t r).0
  parsed-IsPermitted t (err e) h = h
  parsed-IsPermitted t (ok status) h =
      peer-IsPermitted (record t { latest_flow_status = some status })
        (operator_peer_sequence status) t.sequencer (record { same = h.same; wire = h.wire })

  status-IsPermitted :
      (octets : List ℕ) (basic : BasicHeader) (t : Transport)
      → IsPermitted p t
      → IsPermitted p (note_status octets basic t).0
  unfolding note_status
  status-IsPermitted octets basic t h = elim (Bool-cases (basic.wh_type == device_status)) [
    | inl e ↦ rw e (parsed-IsPermitted t (parse_status octets) h)
    | inr e ↦ rw e h
  ]

  header-IsPermitted :
      (octets : List ℕ) (t : Transport) (r : Result EnvelopeError BasicHeader)
      → IsPermitted p t
      → IsPermitted p (note_header octets t r).0
  header-IsPermitted octets t (err e) h = h
  header-IsPermitted octets t (ok basic) h =
      elim (Bool-cases (is_of_session t.profile.session_id basic)) [
        | inl e ↦ rw e (
            status-IsPermitted octets basic (note_response basic t)
              (response-IsPermitted basic t h))
        | inr e ↦ rw e h
      ]

  noted-IsPermitted :
      (now : ℕ) (t : Transport) (sequence : Option ℕ)
      → IsPermitted p t
      → IsPermitted p (note_keepalive now t sequence)
  noted-IsPermitted now t none h = h
  noted-IsPermitted now t (some sequence) h =
      elim (Bool-cases (has t.pending_keepalives sequence)) [
        | inl e ↦ rw e (record { same = h.same; wire = h.wire })
        | inr e ↦ rw e h
      ]

  then-IsPermitted :
      (now : ℕ) (octets : List ℕ) (r : Received)
      → IsPermitted p r.0
      → IsPermitted p (then_keepalive now octets r).0
  then-IsPermitted now octets (t, err e) h = h
  then-IsPermitted now octets (t, ok done) h = noted-IsPermitted now t _ h

  receive-IsPermitted :
      (octets : List ℕ) (expected : Bool) (now : ℕ) (t : Transport)
      → IsPermitted p t
      → IsPermitted p (receive_octets octets expected now t).0
  unfolding receive_octets
  receive-IsPermitted octets expected now t h = elim (Bool-cases (not t.is_open)) [
    | inl e ↦ rw e h
    | inr e ↦ rw e (elim (Bool-cases (not expected)) [
      | inl g ↦ rw g h
      | inr g ↦ rw g (
          then-IsPermitted now octets (note_header octets t (parse_basic octets))
            (header-IsPermitted octets t (parse_basic octets) h))
    ])
  ]

  act-IsPermitted :
      (call : SessionCall) (t : Transport) → IsPermitted p t → IsPermitted p (act call t)
  unfolding act transport_ack close_transport
  act-IsPermitted (opening taken arrivals) t h = open-IsPermitted p taken arrivals t h
  act-IsPermitted (stick command taken) t h = stick-IsPermitted p command taken t h
  act-IsPermitted (camera_action a taken) t h = camera-IsPermitted p a taken t h
  act-IsPermitted (keepalive taken now) t h = keepalive-IsPermitted p taken now t h
  act-IsPermitted (flow_ack taken now) t h = ack-IsPermitted p taken now t t.latest_flow_status h
  act-IsPermitted (receiving octets expected now) t h = receive-IsPermitted octets expected now t h
  act-IsPermitted closing t h = record { same = h.same; wire = h.wire }

  acts-IsPermitted :
      (calls : List SessionCall) (t : Transport) → IsPermitted p t → IsPermitted p (acts calls t)
  unfolding acts
  acts-IsPermitted [] t h = h
  acts-IsPermitted (call ∷ rest) t h = acts-IsPermitted rest (act call t) (act-IsPermitted call t h)

  -- Whatever is called on a new session, in whatever order, and whatever the socket answers and the
  -- camera sends: each datagram that is handed to the socket is the handshake of the session, the
  -- acknowledgement of a flow status, an envelope that keeps the operator's policy around a stick
  -- command within the captured envelope or around a keepalive, or an envelope, which is not checked
  -- against that policy, around one of the camera's actions.
  pub acts-Permitted :
      (calls : List SessionCall) → All (Permitted p) (acts calls (new_transport p)).wire
  unfolding new_transport
  acts-Permitted calls =
      (acts-IsPermitted calls (new_transport p) (record { same = refl; wire = tt })).wire
