-- ===== src/Transport/Paced.antt =====
-- transport/dji_wifi_udp.py: how often flow acknowledgements are sent.
use openframetap.Prelude.{
  subst⁻¹, ℕ, Bool, true, false, Option, none, some, List, [], ◌∷◌, ◌≡◌, refl, ap, ◌∙◌, Bool-cases,
  inl, inr, All, Result, ok, err, arith, ◌+◌, ◌*◌, ◌-◌, ◌≤◌, ltb→le,
}
use openframetap.DjiWifi.{EnvelopeError}
use openframetap.DjiWifi.Flow.{FlowStatus, encode_operator_flow_ack}
use openframetap.DjiWifi.Sequencer.{Sequencer}
use openframetap.Transport.{
  Transport, TransportError, HandshakeProfile, new_transport, close_transport, send_to,
  wire_sequence, flow_ack_interval_ns,
}
use openframetap.Transport.Sends.{
  send_frame, stick_frame, transport_stick, keepalive_numbered, transport_keepalive, after_ack,
  send_ack, ack_on_session, ack_status, transport_ack, is_too_soon,
}
use openframetap.Transport.Camera.{action_fields, transport_camera}
use openframetap.Transport.Calls.{
  SessionCall, opening, stick, camera_action, keepalive, flow_ack, receiving, closing, act, acts,
}
use openframetap.Transport.Kept.{
  camera_checked-Kept, Kept, send_frame-Kept, on_session-Kept, numbered-Kept, open-Kept,
  receive-Kept, send_to-Kept,
}

-- Since `begun`, one acknowledgement has been sent at most in each interval, up to the last one.
abbrev pub PacedFrom : ℕ → ℕ → Option ℕ → Type 0
PacedFrom begun count none = count ≡ 0
PacedFrom begun count (some last) =
    count * flow_ack_interval_ns + begun ≤ last + flow_ack_interval_ns

abbrev Paced : ℕ → Transport → Type 0
Paced begun t = PacedFrom begun t.flow_ack_sent_count t.last_flow_ack_ns

Kept-Paced : (begun : ℕ) (a b : Transport) → Kept a b → Paced begun a → Paced begun b
Kept-Paced begun a b kept h =
    subst⁻¹ (λ n. PacedFrom begun n b.last_flow_ack_ns) kept.0
      (subst⁻¹ (PacedFrom begun a.flow_ack_sent_count) kept.1 h)

-- one more acknowledgement, which is not too soon
next-PacedFrom :
    (begun now count : ℕ) (last : Option ℕ)
    → begun ≤ now
    → is_too_soon now last ≡ false
    → PacedFrom begun count last
    → PacedFrom begun (count + 1) (some now)
next-PacedFrom begun now count none late due h = omega (arith, late, h)
next-PacedFrom begun now count (some last) late due h =
    let apart : flow_ack_interval_ns ≤ now - last = ltb→le (now - last) flow_ack_interval_ns due in
    omega (arith, apart, h)

after_ack-Paced :
    (begun now : ℕ) (d : List ℕ) (r : Transport × Result TransportError (Unit {0}))
    → begun ≤ now
    → is_too_soon now r.0.last_flow_ack_ns ≡ false
    → Paced begun r.0
    → Paced begun (after_ack now d r).0
after_ack-Paced begun now d (t, err e) late due h = h
after_ack-Paced begun now d (t, ok done) late due h =
    next-PacedFrom begun now t.flow_ack_sent_count t.last_flow_ack_ns late due h

send_ack-Paced :
    (begun : ℕ) (taken : Bool) (now : ℕ) (t : Transport) (r : Result EnvelopeError (List ℕ))
    → begun ≤ now
    → is_too_soon now t.last_flow_ack_ns ≡ false
    → Paced begun t
    → Paced begun (send_ack taken now t r).0
send_ack-Paced begun taken now t (err e) late due h = h
send_ack-Paced begun taken now t (ok d) late due h =
    let kept = send_to-Kept taken d t in
    after_ack-Paced begun now d (send_to taken d t) late (ap (is_too_soon now) kept.1 ∙ due)
      (Kept-Paced begun t (send_to taken d t).0 kept h)

session-Paced :
    (begun : ℕ) (taken : Bool) (now : ℕ) (t : Transport) (status : FlowStatus) (is_open : Bool)
    (s : Option Sequencer)
    → begun ≤ now
    → Paced begun t
    → Paced begun (ack_on_session taken now t status is_open s).0
session-Paced begun taken now t status false s late h = h
session-Paced begun taken now t status true none late h = h
session-Paced begun taken now t status true (some s) late h =
    elim (Bool-cases (is_too_soon now t.last_flow_ack_ns)) [
      | inl e ↦ rw e h
      | inr e ↦ rw e (
          send_ack-Paced begun taken now t
            (encode_operator_flow_ack status t.last_sent_transport_sequence) late e h)
    ]

status-Paced :
    (begun : ℕ) (taken : Bool) (now : ℕ) (t : Transport) (status : Option FlowStatus)
    → begun ≤ now
    → Paced begun t
    → Paced begun (ack_status taken now t status).0
status-Paced begun taken now t none late h = h
status-Paced begun taken now t (some status) late h =
    session-Paced begun taken now t status t.is_open t.sequencer late h

-- The clock reads no less than `begun` when an acknowledgement is tried.
abbrev pub StartsAfter : ℕ → SessionCall → Type 0
StartsAfter begun (flow_ack taken now) = begun ≤ now
StartsAfter begun call = Unit

act-Paced :
    (begun : ℕ) (call : SessionCall) (t : Transport)
    → StartsAfter begun call
    → Paced begun t
    → Paced begun (act call t)
unfolding act transport_ack transport_stick transport_keepalive transport_camera close_transport
act-Paced begun (opening taken arrivals) t late h =
    Kept-Paced begun t (act (opening taken arrivals) t) (open-Kept taken arrivals t) h
act-Paced begun (stick command taken) t late h =
    Kept-Paced begun t (act (stick command taken) t)
      (on_session-Kept t t.is_open t.sequencer
        (λ s. send_frame taken s t (stick_frame command t.duml_sequence))
        (λ s. send_frame-Kept taken s t (stick_frame command t.duml_sequence)))
      h
act-Paced begun (camera_action a taken) t late h =
    Kept-Paced begun t (act (camera_action a taken) t)
      (camera_checked-Kept a taken t (action_fields a)) h
act-Paced begun (keepalive taken now) t late h =
    Kept-Paced begun t (act (keepalive taken now) t)
      (on_session-Kept t t.is_open t.sequencer
        (λ s. keepalive_numbered taken now t s (wire_sequence t.duml_sequence))
        (λ s. numbered-Kept taken now t s (wire_sequence t.duml_sequence)))
      h
act-Paced begun (flow_ack taken now) t late h =
    status-Paced begun taken now t t.latest_flow_status late h
act-Paced begun (receiving octets expected now) t late h =
    Kept-Paced begun t (act (receiving octets expected now) t) (receive-Kept octets expected now t)
      h
act-Paced begun closing t late h = h

acts-Paced_from :
    (begun : ℕ) (calls : List SessionCall) (t : Transport)
    → All (StartsAfter begun) calls
    → Paced begun t
    → Paced begun (acts calls t)
unfolding acts
acts-Paced_from begun [] t late h = h
acts-Paced_from begun (call ∷ rest) t late h =
    acts-Paced_from begun rest (act call t) late.1 (act-Paced begun call t late.0 h)

-- Whatever is called on a new session, flow acknowledgements are sent at no more than forty a
-- second: if the clock never reads less than `begun` when one is tried, then between `begun` and the
-- last one there are twenty-five milliseconds for each but one of them. If none was sent, the count is
-- zero.
pub acts-paced :
    (p : HandshakeProfile) (begun : ℕ) (calls : List SessionCall)
    → All (StartsAfter begun) calls
    → PacedFrom begun
        (acts calls (new_transport p)).flow_ack_sent_count
        (acts calls (new_transport p)).last_flow_ack_ns
unfolding new_transport
acts-paced p begun calls late = acts-Paced_from begun calls (new_transport p) late refl
