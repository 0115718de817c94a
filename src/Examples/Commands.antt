-- ===== src/Examples/Commands.antt =====
-- protocol/commands.py and its neighbours: authorizations, frames and addresses.
use openframetap.Prelude.{◌↔◌, ◌++◌, ℕ, refl, ok, [], ◌≡◌, ◌∷◌, some, none, List, false, true}
use openframetap.Commands.{
  CommandDefinition, SendAuthorization, assert_send_allowed, explicit_single_frame,
}
use openframetap.Commands.Authorized.{
  assert_send_allowed-Allowed, Allowed, explicit_single_frame-SingleFrame, SingleFrame, for_frame,
}
use openframetap.Commands.Livestream.{
  prepare_stream_transport, wifi_connect, configure_live_stream, request, live_stream_payload,
  build_wifi_connect_frame, build_configure_live_stream_frame,
}
use openframetap.Commands.Normal.{
  zero_octets, build_normal_frame, validate_normal_frame, normal_request,
}
use openframetap.Commands.Payloads.{validate_rtmp_url}
use openframetap.Commands.Validate.{validate_command_frame, get_command_definition}
use openframetap.Commands.Frames.{build_normal_frame-validates, build_wifi_connect-validates}
use openframetap.Commands.LiveFrames.{build_configure-validates}
use openframetap.Commands.Agrees.{policy-validates, validate_rtmp_url-OnTheLan, OnTheLan}
use openframetap.Duml.{encode_duml_frame, DumlFrame, decode_duml_frame}
use openframetap.Duml.Wire.{wire}
use openframetap.Examples.Gimbal.{slow_frame, slow_frame-validated}
use openframetap.Network.{Readers, ipv4}
use openframetap.Texts.{text}
use openframetap.Bytes.{to_little, first_outside, same_bytes}

abbrev noon : List ℕ
noon = text "2026-07-19T12:00:00+00:00"

abbrev reviewed_digest : List ℕ
reviewed_digest = text "624c92dc2ce9364346e1b5e548f8be260b9f21e35fca20503b38315c90999286"

abbrev reviewed : SendAuthorization
reviewed =
    for_frame noon (text "prepare_stream_transport") reviewed_digest (text "recovery")
      (text "owner") true

assert_send_allowed-Allowed_example :
    ¬ (assert_send_allowed prepare_stream_transport none ≡ ok tt)
    × ((assert_send_allowed prepare_stream_transport (some reviewed) ≡ ok tt)
        ↔ Allowed prepare_stream_transport reviewed)
assert_send_allowed-Allowed_example = assert_send_allowed-Allowed prepare_stream_transport reviewed

explicit_single_frame-SingleFrame_example :
    SingleFrame
      (text "prepare_stream_transport")
      reviewed_digest
      true
      reviewed
      prepare_stream_transport
unfolding explicit_single_frame assert_send_allowed same_bytes
explicit_single_frame-SingleFrame_example =
    explicit_single_frame-SingleFrame noon (text "prepare_stream_transport") reviewed_digest
      (text "recovery") (text "owner") true reviewed prepare_stream_transport refl refl

abbrev ssid_frame : List ℕ
ssid_frame =
    wire (normal_request (record { receiver = 7; cmd_set = 7; cmd_id = 7; payload = [] }) 5)

build_normal_frame-validates_example :
    (d : DumlFrame) × (decode_duml_frame ssid_frame false ≡ ok d)
    × (validate_normal_frame (text "normal_get_ssid") d ≡ ok tt)
unfolding build_normal_frame same_bytes encode_duml_frame first_outside to_little
build_normal_frame-validates_example =
    build_normal_frame-validates (text "normal_get_ssid") 5 ssid_frame refl

abbrev join_frame : List ℕ
join_frame = wire (request wifi_connect 9 (3 ∷ (text "lan" ++ 8 ∷ text "password")))

-- The streaming host has the address 10.0.0.2.
abbrev at_home : Readers
at_home = record {
  decode_utf8 = λ bytes. some bytes;
  urlsplit = λ url. some (record {
    scheme = text "rtmp";
    hostname = some (text "10.0.0.2");
    port = some (some 1935);
    path = text "/live/pocket";
    query = [];
    fragment = [];
    username = none;
    password = none;
  });
  ip_address = λ host. some (ipv4 167772162);
  decimal = λ n. [];
}

abbrev home_url : List ℕ
home_url = text "rtmp://10.0.0.2:1935/live/pocket"

build_wifi_connect-validates_example :
    (d : DumlFrame) × (decode_duml_frame join_frame false ≡ ok d)
    × (validate_command_frame at_home wifi_connect d ≡ ok tt)
    × (d.payload ≡ 3 ∷ (text "lan" ++ 8 ∷ text "password"))
unfolding build_wifi_connect_frame encode_duml_frame first_outside to_little
build_wifi_connect-validates_example =
    build_wifi_connect-validates at_home (text "lan") (text "password") 9 join_frame refl

abbrev stream_frame : List ℕ
stream_frame = wire (request configure_live_stream 9 (live_stream_payload 0x04 0x03 4000 home_url))

build_configure-validates_example :
    (d : DumlFrame) × (decode_duml_frame stream_frame false ≡ ok d)
    × (validate_command_frame at_home configure_live_stream d ≡ validate_rtmp_url at_home home_url)
unfolding build_configure_live_stream_frame encode_duml_frame first_outside to_little
build_configure-validates_example =
    build_configure-validates at_home home_url 9 720 30 4000 stream_frame refl

validate_rtmp_url-OnTheLan_example : OnTheLan at_home home_url
unfolding validate_rtmp_url same_bytes
validate_rtmp_url-OnTheLan_example = validate_rtmp_url-OnTheLan at_home home_url refl

policy-validates_example :
    (d : DumlFrame) × (command : CommandDefinition) × (decode_duml_frame slow_frame false ≡ ok d)
    × (get_command_definition (text "gimbal_speed_control") ≡ some command)
    × (validate_command_frame at_home command d ≡ ok tt)
policy-validates_example = policy-validates at_home slow_frame false _ slow_frame-validated

abbrev challenge : DumlFrame
challenge = record {
  total_length = 77;
  version = 1;
  length_version_raw = 1101;
  sender = 0x48;
  receiver = 2;
  sequence = 300;
  flags = 0x40;
  cmd_set = 0;
  cmd_id = 0x82;
  payload = zero_octets 64;
  crc8_expected = 0;
  crc8_actual = 0;
  crc8_valid = true;
  crc16_expected = 0;
  crc16_actual = 0;
  crc16_valid = true;
  raw = [];
}
