-- ===== src/Transport/Sends.antt =====
-- transport/dji_wifi_udp.py: what the session sends once it is open.
use openframetap.Prelude.{
  ℕ, Bool, true, false, Option, none, some, List, if◌then◌else◌, ◌+◌, ◌-◌, ltb, bit_and, Result, ok,
  err, map_err, ◌>>◌, ◌>>=◌,
}
use openframetap.Dicts.{store, remove}
use openframetap.DjiWifi.{EnvelopeError}
use openframetap.DjiWifi.Envelope.{Envelope, encode_envelope, validate_operator_policy}
use openframetap.DjiWifi.Flow.{FlowStatus, encode_operator_flow_ack}
use openframetap.DjiWifi.Sequencer.{Sequencer, build}
use openframetap.StickProfile.{
  StickCommand, encode_stick, validate_stick_duml, encode_control_keepalive,
}
use openframetap.Transport.{
  Transport, TransportError, not_handshaken, envelope_refused, stick_refused, wire_sequence,
  send_to, flow_ack_interval_ns,
}

-- What a method leaves, and the datagram that it reports.
abbrev pub Sent : Type 0
Sent = Transport × Result TransportError (List ℕ)

-- After `_sendto`, the numbers move on; if it raises they stay.
abbrev pub after_sendto : Envelope → List ℕ → Transport × Result TransportError (Unit {0}) → Sent
after_sendto envelope datagram (t, err e) = (t, err e)
after_sendto envelope datagram (t, ok done) = (
  record t {
    last_sent_transport_sequence = envelope.transport_sequence;
    duml_sequence = bit_and (t.duml_sequence + 1) 0xFFFF;
  },
  ok datagram,
)

abbrev pub send_encoded : Bool → Envelope → Transport → Result EnvelopeError (List ℕ) → Sent
send_encoded taken envelope t (err e) = (t, err (envelope_refused e))
send_encoded taken envelope t (ok datagram) =
    after_sendto envelope datagram (send_to taken datagram t)

-- the policy of the envelope, and its encoding
unfoldable pub checked_datagram : Envelope → Result EnvelopeError (List ℕ)
checked_datagram envelope = do validate_operator_policy envelope; encode_envelope envelope

-- The sequencer has moved on even if what follows raises.
abbrev pub send_built : Bool → Transport → Sequencer × Result EnvelopeError Envelope → Sent
send_built taken t (s, err e) = (record t { sequencer = some s }, err (envelope_refused e))
send_built taken t (s, ok envelope) =
    send_encoded taken envelope (record t { sequencer = some s }) (checked_datagram envelope)

abbrev pub send_frame : Bool → Sequencer → Transport → Result TransportError (List ℕ) → Sent
send_frame taken s t (err e) = (t, err e)
send_frame taken s t (ok duml) = send_built taken t (build s duml)

-- the frame of a stick command, validated once more
unfoldable pub stick_frame : StickCommand → ℕ → Result TransportError (List ℕ)
stick_frame command counter = do
  sequence ← wire_sequence counter
  duml ← map_err stick_refused (encode_stick command sequence)
  command_read ← map_err stick_refused (validate_stick_duml duml)
  ok duml

-- if self.socket is None or self.sequencer is None: raise
abbrev pub on_session : Transport → Bool → Option Sequencer → (Sequencer → Sent) → Sent
on_session t true (some s) go = go s
on_session t true none go = (t, err not_handshaken)
on_session t false s go = (t, err not_handshaken)

-- `DjiWifiUdpTransport.send_stick`
unfoldable pub transport_stick : StickCommand → Bool → Transport → Sent
transport_stick command taken t =
    on_session t t.is_open t.sequencer
      λ s. send_frame taken s t (stick_frame command t.duml_sequence)

-- A keepalive that was not sent is not waited for.
abbrev pub after_keepalive : ℕ → Sent → Sent
after_keepalive sequence (t, err e) =
    (record t { pending_keepalives = remove t.pending_keepalives sequence }, err e)
after_keepalive sequence (t, ok datagram) =
    (record t { keepalive_sent_count = t.keepalive_sent_count + 1 }, ok datagram)

unfoldable pub keepalive_frame : ℕ → Result TransportError (List ℕ)
keepalive_frame sequence = map_err stick_refused (encode_control_keepalive sequence)

abbrev pub keepalive_numbered : Bool → ℕ → Transport → Sequencer → Result TransportError ℕ → Sent
keepalive_numbered taken now t s (err e) = (t, err e)
keepalive_numbered taken now t s (ok sequence) =
    let waiting = record t { pending_keepalives = store t.pending_keepalives sequence now } in
    after_keepalive sequence (send_frame taken s waiting (keepalive_frame sequence))

-- `send_control_keepalive`
unfoldable pub transport_keepalive : Bool → ℕ → Transport → Sent
transport_keepalive taken now t =
    on_session t t.is_open t.sequencer
      λ s. keepalive_numbered taken now t s (wire_sequence t.duml_sequence)

abbrev pub is_too_soon : ℕ → Option ℕ → Bool
is_too_soon now none = false
is_too_soon now (some last) = ltb (now - last) flow_ack_interval_ns

-- What `send_flow_ack_if_due` leaves and returns.
abbrev pub MaybeSent : Type 0
MaybeSent = Transport × Result TransportError (Option (List ℕ))

abbrev pub after_ack : ℕ → List ℕ → Transport × Result TransportError (Unit {0}) → MaybeSent
after_ack now datagram (t, err e) = (t, err e)
after_ack now datagram (t, ok done) = (
  record t { last_flow_ack_ns = some now; flow_ack_sent_count = t.flow_ack_sent_count + 1 },
  ok (some datagram),
)

abbrev pub send_ack : Bool → ℕ → Transport → Result EnvelopeError (List ℕ) → MaybeSent
send_ack taken now t (err e) = (t, err (envelope_refused e))
send_ack taken now t (ok datagram) = after_ack now datagram (send_to taken datagram t)

abbrev pub ack_on_session : Bool → ℕ → Transport → FlowStatus → Bool → Option Sequencer → MaybeSent
ack_on_session taken now t status true (some s) =
    if is_too_soon now t.last_flow_ack_ns
    then (t, ok none)
    else send_ack taken now t (encode_operator_flow_ack status t.last_sent_transport_sequence)
ack_on_session taken now t status true none = (t, err not_handshaken)
ack_on_session taken now t status false s = (t, err not_handshaken)

abbrev pub ack_status : Bool → ℕ → Transport → Option FlowStatus → MaybeSent
ack_status taken now t none = (t, ok none)
ack_status taken now t (some status) = ack_on_session taken now t status t.is_open t.sequencer

-- `send_flow_ack_if_due`
unfoldable pub transport_ack : Bool → ℕ → Transport → MaybeSent
transport_ack taken now t = ack_status taken now t t.latest_flow_status
