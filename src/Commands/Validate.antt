-- ===== src/Commands/Validate.antt =====
-- protocol/commands.py: the tables together, and the check of a frame against its command.
use openframetap.Prelude.{
  ok, [], ◌∷◌, reject_if, some, none, ℕ, not, Result, Option, List, Bool, false, true,
}
use openframetap.Commands.{
  ack_flag, start_transport_differs, prepare_transport_differs, prepare_live_differs,
  stage2_differs, stage1_ack_differs, encrypted, CommandDefinition, FrameRejected,
}
use openframetap.Commands.Tables.{commands_by_name}
use openframetap.Commands.Livestream.{livestream_commands}
use openframetap.Commands.Normal.{validate_normal_frame}
use openframetap.Commands.Payloads.{
  validate_set_pairing_pin, validate_wifi_connect, validate_configure_live_stream,
  validate_gimbal_speed, fixed,
}
use openframetap.Duml.{encryption, DumlFrame}
use openframetap.Network.{Readers}
use openframetap.Texts.{text, starts_with}
use openframetap.Prelude.{
  ok, [], ◌∷◌, ◌==◌, reject_if, ◌>>◌, true, none, if◌then◌else◌, bit_and, ℕ, not, Result, Option,
  List, Bool,
}
use openframetap.Bytes.{same_bytes}

-- a table's entry of this name
abbrev pub named : List CommandDefinition → List ℕ → Option CommandDefinition
named [] name = none
named (c ∷ cs) name = if same_bytes name c.name then some c else named cs name

-- the first table, and the second where it has no such name
abbrev pub or_named : Option CommandDefinition → List ℕ → Option CommandDefinition
or_named (some c) name = some c
or_named none name = named livestream_commands name

unfoldable pub get_command_definition : List ℕ → Option CommandDefinition
get_command_definition name = or_named (named commands_by_name name) name

-- The branches by name of `validate_command_frame`.
unfoldable pub validate_by_name : Readers → List ℕ → DumlFrame → Result FrameRejected (Unit {0})
unfolding validate_set_pairing_pin validate_wifi_connect validate_configure_live_stream
    validate_gimbal_speed
validate_by_name r name frame =
    if same_bytes name (text "set_pairing_pin")
    then validate_set_pairing_pin frame
    else if same_bytes name (text "pairing_stage1_ack")
    then fixed 0xC0 (0x00 ∷ []) stage1_ack_differs frame
    else if same_bytes name (text "pairing_stage2")
    then fixed 0x40 (0x31 ∷ 0x31 ∷ 0x00 ∷ 0x00 ∷ 0x00 ∷ []) stage2_differs frame
    else if same_bytes name (text "prepare_to_live_stream")
    then fixed 0x40 (0x1A ∷ []) prepare_live_differs frame
    else if same_bytes name (text "prepare_stream_transport")
    then fixed 0x40 (0x00 ∷ 0x01 ∷ 0x1C ∷ 0x00 ∷ []) prepare_transport_differs frame
    else if same_bytes name (text "start_live_stream_transport")
    then fixed 0x40 (0x01 ∷ 0x01 ∷ 0x1A ∷ 0x00 ∷ 0x01 ∷ 0x01 ∷ []) start_transport_differs frame
    else if same_bytes name (text "wifi_connect")
    then validate_wifi_connect frame
    else if same_bytes name (text "configure_live_stream")
    then validate_configure_live_stream r frame
    else if same_bytes name (text "gimbal_speed_control")
    then validate_gimbal_speed frame
    else ok tt

-- bool(frame.flags & 0x40)
abbrev pub asks_for_ack : DumlFrame → Bool
asks_for_ack frame = not (bit_and frame.flags 0x40 == 0)

abbrev pub same_truth : Bool → Bool → Bool
same_truth true b = b
same_truth false b = not b

-- the rest for a frame that is not encrypted, by whether the command is of the normal mode
unfoldable pub validate_plain :
    Readers → Bool → CommandDefinition → DumlFrame → Result FrameRejected (Unit {0})
unfolding validate_by_name validate_normal_frame
validate_plain r true command frame = validate_normal_frame command.name frame
validate_plain r false command frame = do
  reject_if (not (same_truth command.ack_required (asks_for_ack frame))) ack_flag
  validate_by_name r command.name frame

unfoldable pub validate_command_frame :
    Readers → CommandDefinition → DumlFrame → Result FrameRejected (Unit {0})
unfolding validate_plain encryption
validate_command_frame r command frame = do
  reject_if (not (encryption frame == 0)) encrypted
  validate_plain r (starts_with command.name (text "normal_")) command frame
