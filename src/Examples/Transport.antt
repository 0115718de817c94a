-- ===== src/Examples/Transport.antt =====
-- transport/dji_wifi_udp.py on a concrete session.
use openframetap.Prelude.{◌++◌, arith, ℕ, true, false, List, [], ◌∷◌, ◌≡◌, refl, All, length}
use openframetap.Bytes.{same_bytes, first_outside, to_little}
use openframetap.DjiWifi.{parse_basic, encode_basic}
use openframetap.StickProfile.{encode_control_keepalive, validate_stick_duml, encode_stick, stick}
use openframetap.Transport.{
  close_transport, wire_sequence, check_response, await_response, encode_handshake, open_transport,
  HandshakeProfile, new_transport,
}
use openframetap.Commands.Normal.{zero_octets}
use openframetap.Transport.Receives.{note_status}
use openframetap.DjiWifi.Flow.{parse_status, operator_peer_sequence, encode_operator_flow_ack}
use openframetap.DjiWifi.Sequencer.{observe_peer_sequence}
use openframetap.StickProfile.{decode_control_keepalive_response}
use openframetap.Transport.Paced.{PacedFrom, StartsAfter, acts-paced}
use openframetap.Transport.Permits.{Permitted}
use openframetap.Transport.Calls.{
  camera_action, act, SessionCall, opening, stick as move, keepalive, flow_ack, receiving, closing,
  acts, acts-Permitted,
}
use openframetap.Transport.Sends.{
  transport_ack, keepalive_frame, transport_keepalive, checked_datagram, stick_frame,
  transport_stick,
}
use openframetap.DjiWifi.Sequencer.{build}
use openframetap.DjiWifi.Envelope.{validate_operator_policy, encode_envelope}
use openframetap.Transport.Receives.{receive_octets}
use openframetap.Duml.{decode_duml_frame, encode_duml_frame}
use openframetap.Duml.{declared_length, frame_of}
use openframetap.DjiWifi.Envelope.{operator_command, parse_envelope}
use openframetap.Transport.Receives.{keepalive_sequence}
use openframetap.Bytes.{from_little}
use openframetap.Crc.{crc16_dji, crc8_dji}
use openframetap.Transport.Camera.{
  action_fields, encode_action, recenter, camera_frame, transport_camera,
}

-- the values of the capture
abbrev captured_profile : HandshakeProfile
captured_profile = record {
  session_id = 0x7055;
  sequence_seed = 0x82A8;
  link_quality = 100;
  secondary_quality = 100;
  mtu = 1472;
  frame_interval_ms = 20;
  trailing_quality_be = 100;
  product_prefix = 0 ∷ 0 ∷ 1 ∷ 0x90 ∷ [];
  capability_payload =
      0x01 ∷ 0xC0 ∷ 0x05 ∷ 0x14 ∷ 0x00 ∷ 0x00 ∷ 0x64 ∷ 0x00 ∷ 0x14 ∷ 0x00 ∷ 0x64 ∷ 0x00 ∷ 0xC0
      ∷ 0x05 ∷ 0x14 ∷ 0x00 ∷ 0x00 ∷ 0x64 ∷ 0x00 ∷ 0x01 ∷ 0x01 ∷ 0x04 ∷ 0x01 ∷ 0x02 ∷ [];
}

-- the answer of the camera: nine octets, of type 0, for this session
abbrev answer : List ℕ
answer = 0x09 ∷ 0x80 ∷ 0x55 ∷ 0x70 ∷ 0x00 ∷ 0x00 ∷ 0x00 ∷ 0xAC ∷ 0x01 ∷ []

-- a flow status, whose third window ends where the session starts
abbrev status : List ℕ
status =
    (0x22 ∷ 0x80 ∷ 0x55 ∷ 0x70 ∷ 0x00 ∷ 0x00 ∷ 0x01 ∷ 0x86 ∷ [])
    ++ zero_octets 16
    ++ (0xA8 ∷ 0x82 ∷ 0xA8 ∷ 0x82 ∷ [])
    ++ zero_octets 6

-- a session that opens, moves the gimbal, asks for the state and centers
abbrev session : List SessionCall
session =
    opening true ((answer, true) ∷ [])
    ∷ move (stick 1100 900) true
    ∷ camera_action recenter true
    ∷ keepalive true 7
    ∷ receiving status true 8
    ∷ flow_ack true 30000000
    ∷ flow_ack true 40000000
    ∷ move (stick 1024 1024) false
    ∷ closing
    ∷ []

acts-Permitted_example :
    All (Permitted captured_profile) (acts session (new_transport captured_profile)).wire
acts-Permitted_example = acts-Permitted captured_profile session

six_sent : length (acts session (new_transport captured_profile)).wire ≡ 6
unfolding acts act open_transport encode_handshake encode_basic first_outside to_little parse_basic
    await_response check_response same_bytes transport_stick stick_frame wire_sequence encode_stick
    validate_stick_duml build checked_datagram encode_envelope validate_operator_policy
    transport_keepalive keepalive_frame encode_control_keepalive transport_ack receive_octets
    close_transport encode_duml_frame decode_duml_frame crc8_dji crc16_dji new_transport from_little
    declared_length frame_of operator_command keepalive_sequence parse_envelope note_status
    parse_status operator_peer_sequence observe_peer_sequence decode_control_keepalive_response
    encode_operator_flow_ack transport_camera camera_frame encode_action action_fields
six_sent = refl

session-StartsAfter : All (StartsAfter 10000000) session
session-StartsAfter = (tt, (tt, (tt, (tt, (tt, (omega arith, (omega arith, (tt, (tt, tt)))))))))

acts-paced_example :
    PacedFrom 10000000
      (acts session (new_transport captured_profile)).flow_ack_sent_count
      (acts session (new_transport captured_profile)).last_flow_ack_ns
acts-paced_example = acts-paced captured_profile 10000000 session session-StartsAfter
