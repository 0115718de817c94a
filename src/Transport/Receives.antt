-- ===== src/Transport/Receives.antt =====
-- transport/dji_wifi_udp.py: what the session makes of a datagram that it receives.
use openframetap.Prelude.{
  ℕ, Bool, true, false, Option, none, some, List, ◌==◌, if◌then◌else◌, not, ◌+◌, ◌&&◌, Result, ok,
  err,
}
use openframetap.Dicts.{has, remove}
use openframetap.DjiWifi.{
  BasicHeader, EnvelopeError, parse_basic, format_nibble_value, device_status,
}
use openframetap.DjiWifi.Envelope.{Envelope, parse_envelope}
use openframetap.DjiWifi.Flow.{FlowStatus, parse_status, operator_peer_sequence}
use openframetap.DjiWifi.Sequencer.{Sequencer, observe_peer_sequence}
use openframetap.StickProfile.{decode_control_keepalive_response}
use openframetap.Transport.{Transport, TransportError, not_open, unexpected_peer, envelope_refused}

abbrev pub response_type : ℕ
response_type = 0x03

abbrev pub Received : Type 0
Received = Transport × Result TransportError (Unit {0})

-- `valid_session_packet`
abbrev pub is_of_session : ℕ → BasicHeader → Bool
is_of_session session basic =
    basic.checksum_valid
    && basic.format_nibble == format_nibble_value
    && basic.session_id == session

-- a response packet, whose own sequence is only remembered
abbrev pub note_response : BasicHeader → Transport → Transport
note_response basic t =
    if basic.wh_type == response_type
    then record t {
      response_packet_count = t.response_packet_count + 1;
      last_response_sequence = some basic.transport_sequence;
    }
    else t

-- what the sequencer says of a peer sequence
abbrev pub observed : ℕ → Transport → Sequencer × Result EnvelopeError Bool → Received
observed sequence t (s, err e) = (record t { sequencer = some s }, err (envelope_refused e))
observed sequence t (s, ok false) = (record t { sequencer = some s }, ok tt)
observed sequence t (s, ok true) = (
  record t {
    sequencer = some s;
    ack_observed_count = t.ack_observed_count + 1;
    last_ack_sequence = some sequence;
  },
  ok tt,
)

abbrev pub note_peer : Transport → Option ℕ → Option Sequencer → Received
note_peer t none s = (record t { ambiguous_window_count = t.ambiguous_window_count + 1 }, ok tt)
note_peer t (some sequence) none = (t, ok tt)
note_peer t (some sequence) (some s) = observed sequence t (observe_peer_sequence s sequence)

abbrev pub note_parsed : Transport → Result EnvelopeError FlowStatus → Received
note_parsed t (err e) = (t, ok tt)
note_parsed t (ok status) =
    note_peer (record t { latest_flow_status = some status }) (operator_peer_sequence status)
      t.sequencer

-- a flow status of the device, if it can be parsed
unfoldable pub note_status : List ℕ → BasicHeader → Transport → Received
note_status octets basic t =
    if basic.wh_type == device_status then note_parsed t (parse_status octets) else (t, ok tt)

-- A header that is not there, or not of the session, says nothing.
abbrev pub note_header : List ℕ → Transport → Result EnvelopeError BasicHeader → Received
note_header octets t (err e) = (t, ok tt)
note_header octets t (ok basic) =
    if is_of_session t.profile.session_id basic
    then note_status octets basic (note_response basic t)
    else (t, ok tt)

-- the sequence of a keepalive response of this session
abbrev pub keepalive_payload : ℕ → Result EnvelopeError Envelope → Option (List ℕ)
keepalive_payload session (err e) = none
keepalive_payload session (ok envelope) =
    if envelope.session_id == session then some envelope.payload else none

abbrev pub keepalive_of : Option (List ℕ) → Option ℕ
keepalive_of none = none
keepalive_of (some payload) = elim (decode_control_keepalive_response payload) [
  | ok sequence ↦ some sequence
  | err e ↦ none
]

unfoldable pub keepalive_sequence : ℕ → List ℕ → Option ℕ
keepalive_sequence session octets =
    keepalive_of (keepalive_payload session (parse_envelope octets false))

-- A response counts once, and only for a keepalive that waits for it.
abbrev pub note_keepalive : ℕ → Transport → Option ℕ → Transport
note_keepalive now t none = t
note_keepalive now t (some sequence) =
    if has t.pending_keepalives sequence
    then record t {
      pending_keepalives = remove t.pending_keepalives sequence;
      keepalive_response_count = t.keepalive_response_count + 1;
      last_keepalive_response_ns = some now;
    }
    else t

abbrev pub then_keepalive : ℕ → List ℕ → Received → Received
then_keepalive now octets (t, err e) = (t, err e)
then_keepalive now octets (t, ok done) =
    (note_keepalive now t (keepalive_sequence t.profile.session_id octets), ok tt)

-- `receive_datagram` of octets that came from the target, or from elsewhere
unfoldable pub receive_octets : List ℕ → Bool → ℕ → Transport → Received
receive_octets octets expected now t =
    if not t.is_open
    then (t, err not_open)
    else if not expected
    then (t, err unexpected_peer)
    else then_keepalive now octets (note_header octets t (parse_basic octets))
