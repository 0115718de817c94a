-- ===== src/Commands/Livestream.antt =====
-- protocol/livestream_commands.py: the commands of the livestream, and their frames.
use Prim.Native.String.{[]}
use openframetap.Commands.{CommandDefinition}
use openframetap.Texts.{text}
use openframetap.Prelude.{
  ◌>>=◌, ok, err, ◌&&◌, ltb, ◌||◌, leb, not, length, ◌++◌, some, reject_if, none, ◌>>◌, ◌==◌,
  map_err, [], ◌∷◌, if◌then◌else◌, false, Result, ℕ, true, Option, List,
}
use openframetap.Duml.{encode_duml_frame, DumlFields, DumlEncodeError}
use openframetap.Bytes.{to_little}

abbrev pub prepare_to_live_stream : CommandDefinition
prepare_to_live_stream = record {
  name = text "prepare_to_live_stream";
  sender = 0x02;
  receiver = 0x08;
  cmd_set = 0x02;
  cmd_id = 0xE1;
  payload_schema = "one fixed byte 1A";
  ack_required = true;
  allowed_in_current_phase = true;
  reference_sources =
      "node-osmo DjiPreparingToLivestreamMessagePayload"
      ∷ "Moblin DjiPreparingToLivestreamMessagePayload"
      ∷ "djictl GetMessagePayloadPrepareToLiveStreamStage1"
      ∷ "reverse-engineering-dji captured C0/02/E1 payload 00 response" ∷ [];
  confidence = "high-reference-not-local-hardware";
  danger = none;
}

abbrev pub prepare_stream_transport : CommandDefinition
prepare_stream_transport = record {
  name = text "prepare_stream_transport";
  sender = 0x02;
  receiver = 0x08;
  cmd_set = 0x02;
  cmd_id = 0x8E;
  payload_schema = "fixed bytes 00 01 1C 00";
  ack_required = true;
  allowed_in_current_phase = false;
  reference_sources =
      "djictl PrepareToLiveStream stage2"
      ∷ "reverse-engineering-dji captured 40/02/8E payload 00011C00" ∷ [];
  confidence = "medium-reference-flow-conflict";
  danger = some (text "separate unapproved prepare-stage2 command type");
}

abbrev pub wifi_connect : CommandDefinition
wifi_connect = record {
  name = text "wifi_connect";
  sender = 0x02;
  receiver = 0x07;
  cmd_set = 0x07;
  cmd_id = 0x47;
  payload_schema = "packed SSID string + packed PSK string";
  ack_required = true;
  allowed_in_current_phase = true;
  reference_sources =
      "node-osmo DjiSetupWifiMessagePayload" ∷ "Moblin DjiSetupWifiMessagePayload"
      ∷ "djictl GetMessagePayloadConnectToWiFi"
      ∷ "reverse-engineering-dji captured C0/07/47 response" ∷ [];
  confidence = "high-reference-not-local-hardware";
  danger = none;
}

abbrev pub configure_live_stream : CommandDefinition
configure_live_stream = record {
  name = text "configure_live_stream";
  sender = 0x02;
  receiver = 0x08;
  cmd_set = 0x08;
  cmd_id = 0x78;
  payload_schema = "quality fields + packed RTMP URL; contains stream key";
  ack_required = true;
  allowed_in_current_phase = true;
  reference_sources =
      "node-osmo DjiStartStreamingMessagePayload" ∷ "Moblin DjiStartStreamingMessagePayload"
      ∷ "djictl GetMessagePayloadConfigureLiveStream (fixed-byte conflict)" ∷ [];
  confidence = "medium-reference-flow-conflict";
  danger = none;
}

abbrev pub start_live_stream_transport : CommandDefinition
start_live_stream_transport = record {
  name = text "start_live_stream_transport";
  sender = 0x02;
  receiver = 0x08;
  cmd_set = 0x02;
  cmd_id = 0x8E;
  payload_schema = "fixed bytes 01 01 1A 00 01 01";
  ack_required = true;
  allowed_in_current_phase = false;
  reference_sources = "djictl RequestStartLiveStream" ∷ [];
  confidence = "low-flow-conflict";
  danger =
      some (text "separate unapproved start command absent from Pocket 3 node-osmo/Moblin flow");
}

abbrev pub stop_live_stream : CommandDefinition
stop_live_stream = record {
  name = text "stop_live_stream";
  sender = 0x02;
  receiver = 0x08;
  cmd_set = 0x02;
  cmd_id = 0x8E;
  payload_schema = "fixed bytes 01 01 1A 00 01 02";
  ack_required = true;
  allowed_in_current_phase = false;
  reference_sources = "node-osmo" ∷ "Moblin" ∷ [];
  confidence = "medium-reference-not-local-hardware";
  danger = some (text "stop is separately user-gated and not needed yet");
}

abbrev pub livestream_commands : List CommandDefinition
livestream_commands =
    prepare_to_live_stream ∷ prepare_stream_transport ∷ wifi_connect ∷ configure_live_stream
    ∷ start_live_stream_transport ∷ stop_live_stream ∷ []

-- The keyword arguments that the builders share.
abbrev pub request : CommandDefinition → ℕ → List ℕ → DumlFields
request command sequence payload = record {
  sender = command.sender;
  receiver = command.receiver;
  sequence = sequence;
  flags = 0x40;
  cmd_set = command.cmd_set;
  cmd_id = command.cmd_id;
  payload = payload;
  version = 1;
}

pub data LivestreamError : Type 0 where
  string_length ssid_length psk_length unsupported_format bitrate_outside url_length :
      LivestreamError
  encode_failed : DumlEncodeError → LivestreamError

abbrev pub encoded : CommandDefinition → ℕ → List ℕ → Result LivestreamError (List ℕ)
encoded command sequence payload =
    map_err encode_failed (encode_duml_frame (request command sequence payload))

unfoldable pub build_prepare_to_live_stream_frame : ℕ → Result LivestreamError (List ℕ)
build_prepare_to_live_stream_frame sequence = encoded prepare_to_live_stream sequence (0x1A ∷ [])

-- `_pack_dji_string` of a text's UTF-8
abbrev pub pack_dji_string : List ℕ → Result LivestreamError (List ℕ)
pack_dji_string value = do
  reject_if (length value == 0 || ltb 0xFF (length value)) string_length
  ok (length value ∷ value)

-- The texts are given by their UTF-8.
unfoldable pub build_wifi_connect_frame : List ℕ → List ℕ → ℕ → Result LivestreamError (List ℕ)
build_wifi_connect_frame ssid psk sequence = do
  reject_if (not (leb 1 (length ssid) && leb (length ssid) 32)) ssid_length
  reject_if (not (leb 8 (length psk) && leb (length psk) 63)) psk_length
  first ← pack_dji_string ssid
  second ← pack_dji_string psk
  encoded wifi_connect sequence (first ++ second)

unfoldable pub build_prepare_stream_stage2_frame : ℕ → Result LivestreamError (List ℕ)
build_prepare_stream_stage2_frame sequence =
    encoded prepare_stream_transport sequence (0x00 ∷ 0x01 ∷ 0x1C ∷ 0x00 ∷ [])

abbrev pub resolution_byte : ℕ → Option ℕ
resolution_byte resolution =
    if resolution == 480
    then some 0x47
    else if resolution == 720
    then some 0x04
    else if resolution == 1080
    then some 0x0A
    else none

abbrev pub fps_byte : ℕ → Option ℕ
fps_byte fps = if fps == 25 then some 0x02 else if fps == 30 then some 0x03 else none

abbrev pub live_stream_payload : ℕ → ℕ → ℕ → List ℕ → List ℕ
live_stream_payload resolution_code fps_code bitrate_kbps url =
    (0x00 ∷ 0x2E ∷ 0x00 ∷ resolution_code ∷ [])
    ++ to_little 2 bitrate_kbps
    ++ (0x02 ∷ 0x00 ∷ fps_code ∷ 0x00 ∷ 0x00 ∷ 0x00 ∷ [])
    ++ to_little 2 (length url)
    ++ url

-- `build_configure_live_stream_frame` once the table of formats has been read
abbrev pub configure_with : Option ℕ → Option ℕ → List ℕ → ℕ → ℕ → Result LivestreamError (List ℕ)
configure_with (some resolution_code) (some fps_code) url sequence bitrate_kbps = do
  reject_if (not (leb 500 bitrate_kbps && leb bitrate_kbps 20000)) bitrate_outside
  reject_if (length url == 0 || ltb 0xFFFF (length url)) url_length
  encoded configure_live_stream sequence
      (live_stream_payload resolution_code fps_code bitrate_kbps url)
configure_with resolution_code fps_code url sequence bitrate_kbps = err unsupported_format

unfoldable pub build_configure_live_stream_frame :
    List ℕ → ℕ → ℕ → ℕ → ℕ → Result LivestreamError (List ℕ)
build_configure_live_stream_frame url sequence resolution fps bitrate_kbps =
    configure_with (resolution_byte resolution) (fps_byte fps) url sequence bitrate_kbps

unfoldable pub build_start_live_stream_transport_frame : ℕ → Result LivestreamError (List ℕ)
build_start_live_stream_transport_frame sequence =
    encoded start_live_stream_transport sequence (0x01 ∷ 0x01 ∷ 0x1A ∷ 0x00 ∷ 0x01 ∷ 0x01 ∷ [])
