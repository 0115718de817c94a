-- ===== src/Transport.antt =====
-- transport/dji_wifi_udp.py: the session with the camera, its handshake and its state. Each call that
-- uses the socket is given what the socket answers.
pub mod Sends
pub mod Camera
pub mod Receives
pub mod Permits
mod Methods
pub mod Calls
mod Kept
pub mod Paced
use openframetap.Prelude.{
  ℕ, Bool, true, false, Option, none, some, List, [], ◌∷◌, ◌++◌, ◌==◌, if◌then◌else◌, not, ◌+◌, ◌*◌,
  ◌/◌, ◌^◌, ◌&&◌, ◌||◌, leb, length, drop, bit_and, bit_or, Result, ok, err, reject_if, map_err,
  ◌>>◌, ◌>>=◌,
}
use openframetap.Bytes.{to_little, same_bytes}
use openframetap.DjiWifi.{
  BasicHeader, EnvelopeError, parse_basic, encode_basic, format_nibble_value,
}
use openframetap.DjiWifi.Flow.{FlowStatus}
use openframetap.Duml.{DumlEncodeError}
use openframetap.DjiWifi.Sequencer.{Sequencer}
use openframetap.StickProfile.{StickError}

abbrev pub flow_ack_interval_ns : ℕ
flow_ack_interval_ns = 25000000

abbrev pub handshake_type : ℕ
handshake_type = 0x00

-- What a camera action may raise.
pub data ActionError : Type 0 where
  point_outside unknown_action : ActionError
  encode_refused : DumlEncodeError → ActionError

pub data TransportError : Type 0 where
  not_open already_open not_handshaken counter_outside_word send_failed timed_out : TransportError
  unexpected_peer handshake_mismatch : TransportError
  envelope_refused : EnvelopeError → TransportError
  stick_refused : StickError → TransportError
  camera_refused : ActionError → TransportError

-- `wifi_duml_wire_sequence`: the counter with its octets swapped
unfoldable pub wire_sequence : ℕ → Result TransportError ℕ
wire_sequence counter = do
  reject_if (not (leb counter 0xFFFF)) counter_outside_word
  ok (bit_or (bit_and counter 0xFF * 2 ^ 8) (counter / 2 ^ 8))

-- `DjiWifiHandshakeProfile`
pub record HandshakeProfile : Type 0 where
  pub session_id : ℕ
  pub sequence_seed : ℕ
  pub link_quality : ℕ
  pub secondary_quality : ℕ
  pub mtu : ℕ
  pub frame_interval_ms : ℕ
  pub trailing_quality_be : ℕ
  pub product_prefix : List ℕ
  pub capability_payload : List ℕ

-- `encode`, with numbers that fit
abbrev pub handshake_payload : HandshakeProfile → List ℕ
handshake_payload p =
    to_little 2 p.sequence_seed
    ++ to_little 2 p.link_quality
    ++ to_little 2 p.secondary_quality
    ++ to_little 2 p.mtu
    ++ to_little 2 p.frame_interval_ms
    ++ (p.trailing_quality_be / 2 ^ 8 ∷ bit_and p.trailing_quality_be 0xFF ∷ [])
    ++ p.product_prefix
    ++ p.capability_payload

unfoldable pub encode_handshake : HandshakeProfile → Result EnvelopeError (List ℕ)
encode_handshake p = do
  basic ← encode_basic (record {
    total_length = 8 + length (handshake_payload p);
    format_nibble = format_nibble_value;
    session_id = p.session_id;
    transport_sequence = 0;
    wh_type = handshake_type;
    checksum = 0;
    checksum_valid = true;
  })
  ok (basic ++ handshake_payload p)

-- `DjiWifiUdpTransport`: `wire` are the datagrams handed to the socket, the latest first.
pub record Transport : Type 0 where
  pub profile : HandshakeProfile
  pub is_open : Bool
  pub sequencer : Option Sequencer
  pub duml_sequence : ℕ
  pub ack_observed_count : ℕ
  pub last_ack_sequence : Option ℕ
  pub response_packet_count : ℕ
  pub last_response_sequence : Option ℕ
  pub ambiguous_window_count : ℕ
  pub latest_flow_status : Option FlowStatus
  pub flow_ack_sent_count : ℕ
  pub last_flow_ack_ns : Option ℕ
  pub keepalive_sent_count : ℕ
  pub keepalive_response_count : ℕ
  pub last_keepalive_response_ns : Option ℕ
  pub pending_keepalives : List (ℕ × ℕ)
  pub last_sent_transport_sequence : ℕ
  pub wire : List (List ℕ)

unfoldable pub new_transport : HandshakeProfile → Transport
new_transport p = record {
  profile = p;
  is_open = false;
  sequencer = none;
  duml_sequence = 0;
  ack_observed_count = 0;
  last_ack_sequence = none;
  response_packet_count = 0;
  last_response_sequence = none;
  ambiguous_window_count = 0;
  latest_flow_status = none;
  flow_ack_sent_count = 0;
  last_flow_ack_ns = none;
  keepalive_sent_count = 0;
  keepalive_response_count = 0;
  last_keepalive_response_ns = none;
  pending_keepalives = [];
  last_sent_transport_sequence = p.sequence_seed;
  wire = [];
}

-- `_sendto` on an open socket, which takes the datagram or raises
abbrev pub send_to : Bool → List ℕ → Transport → Transport × Result TransportError (Unit {0})
send_to true datagram t = (record t { wire = datagram ∷ t.wire }, ok tt)
send_to false datagram t = (record t { wire = datagram ∷ t.wire }, err send_failed)

-- The loop of `open`: what arrives is a datagram, and whether it came from the target. A late
-- datagram of another session is passed over; when nothing more arrives, the time is up.
abbrev pub is_answer : HandshakeProfile → BasicHeader → Bool
is_answer p basic = basic.session_id == p.session_id && basic.wh_type == handshake_type

abbrev pub answer_or :
    Bool
    → List ℕ × BasicHeader
    → Result TransportError (List ℕ × BasicHeader)
    → Result TransportError (List ℕ × BasicHeader)
answer_or true answer later = ok answer
answer_or false answer later = later

unfoldable pub await_response :
    HandshakeProfile → List (List ℕ × Bool) → Result TransportError (List ℕ × BasicHeader)
await_response p [] = err timed_out
await_response p ((response, expected) ∷ rest) = do
  reject_if (not expected) unexpected_peer
  basic ← map_err envelope_refused (parse_basic response)
  answer_or (is_answer p basic) (response, basic) (await_response p rest)

-- the check of the response
unfoldable pub check_response :
    HandshakeProfile → List ℕ × BasicHeader → Result TransportError (Unit {0})
check_response p (response, basic) =
    reject_if
      (not basic.checksum_valid
        || not (basic.format_nibble == format_nibble_value)
        || not (basic.session_id == p.session_id)
        || not (basic.wh_type == handshake_type)
        || not (same_bytes (drop 8 response) (1 ∷ [])))
      handshake_mismatch

abbrev pub first_sequencer : HandshakeProfile → Sequencer
first_sequencer p = record {
  session_id = p.session_id;
  next_transport_sequence = bit_and (p.sequence_seed + 8) 0xFFFF;
  peer_sequence = p.sequence_seed;
  next_message_counter = 1;
}

-- What `open` leaves, by the outcome of its steps.
abbrev pub opened :
    Transport → Result TransportError (Unit {0}) → Transport × Result TransportError (Unit {0})
opened t (ok done) =
    (record t { is_open = true; sequencer = some (first_sequencer t.profile) }, ok tt)
opened t (err e) = (record t { is_open = false; sequencer = none }, err e)

abbrev pub shake_hands :
    Transport
    → List (List ℕ × Bool)
    → Transport × Result TransportError (Unit {0})
    → Transport × Result TransportError (Unit {0})
shake_hands t arrivals (b, err e) = opened b (err e)
shake_hands t arrivals (b, ok done) =
    opened b (await_response t.profile arrivals >>= check_response t.profile)

abbrev pub handshake_request :
    Transport
    → Bool
    → List (List ℕ × Bool)
    → Result EnvelopeError (List ℕ)
    → Transport × Result TransportError (Unit {0})
handshake_request t taken arrivals (err e) = opened t (err (envelope_refused e))
handshake_request t taken arrivals (ok datagram) = shake_hands t arrivals (send_to taken datagram t)

unfoldable pub open_transport :
    Bool → List (List ℕ × Bool) → Transport → Transport × Result TransportError (Unit {0})
open_transport taken arrivals t =
    if t.is_open
    then (t, err already_open)
    else handshake_request t taken arrivals (encode_handshake t.profile)

unfoldable pub close_transport : Transport → Transport
close_transport t = record t { is_open = false; sequencer = none; latest_flow_status = none }
