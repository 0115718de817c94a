-- ===== src/Commands/Tables.antt =====
-- protocol/commands.py: the tables of the pairing commands and of the prohibited ones.
use Prim.Native.String.{[]}
use openframetap.Commands.{CommandDefinition}
use openframetap.Texts.{text}
use openframetap.Prelude.{some, none, false, [], ◌∷◌, ◌++◌, ℕ, true, List}

abbrev pub set_pairing_pin : CommandDefinition
set_pairing_pin = record {
  name = text "set_pairing_pin";
  sender = 0x02;
  receiver = 0x07;
  cmd_set = 0x07;
  cmd_id = 0x45;
  payload_schema = "packed identifier string + packed PIN string; conflicting references";
  ack_required = true;
  allowed_in_current_phase = true;
  reference_sources = "djictl" ∷ "lib-osmo-ble" ∷ "reverse-engineering-dji capture" ∷ [];
  confidence = "medium";
  danger = none;
}

abbrev pub pairing_stage1_ack : CommandDefinition
pairing_stage1_ack = record {
  name = text "pairing_stage1_ack";
  sender = 0x02;
  receiver = 0x07;
  cmd_set = 0x07;
  cmd_id = 0x46;
  payload_schema = "one status byte (captured value 0x00)";
  ack_required = true;
  allowed_in_current_phase = true;
  reference_sources = "djictl" ∷ "reverse-engineering-dji capture" ∷ [];
  confidence = "high";
  danger = none;
}

abbrev pub pairing_stage2 : CommandDefinition
pairing_stage2 = record {
  name = text "pairing_stage2";
  sender = 0x02;
  receiver = 0x88;
  cmd_set = 0x00;
  cmd_id = 0x32;
  payload_schema = "captured bytes 31 31 00 00 00";
  ack_required = true;
  allowed_in_current_phase = true;
  reference_sources = "djictl" ∷ "reverse-engineering-dji capture" ∷ [];
  confidence = "high";
  danger = none;
}

abbrev pub pairing_commands : List CommandDefinition
pairing_commands = set_pairing_pin ∷ pairing_stage1_ack ∷ pairing_stage2 ∷ []

-- `_dangerous`
abbrev pub dangerous : List ℕ → ℕ → List ℕ → ℕ → CommandDefinition
dangerous name cmd_id danger cmd_set = record {
  name = name;
  sender = 0x02;
  receiver = 0x04;
  cmd_set = cmd_set;
  cmd_id = cmd_id;
  payload_schema = "not implemented: explicitly prohibited";
  ack_required = true;
  allowed_in_current_phase = false;
  reference_sources = "lib-osmo-ble command map" ∷ [];
  confidence = "reference-only";
  danger = some danger;
}

abbrev pub dangerous_commands : List CommandDefinition
dangerous_commands =
    dangerous (text "gimbal_pwm_control") 0x01 (text "controls gimbal PWM") 0x04
    ∷ dangerous (text "gimbal_set_angle") 0x0A (text "sets gimbal angle") 0x04
    ∷ dangerous (text "gimbal_speed_control") 0x0C (text "controls gimbal speed") 0x04
    ∷ dangerous (text "gimbal_absolute_angle") 0x14 (text "controls absolute gimbal angle") 0x04
    ∷ dangerous (text "gimbal_incremental_move") 0x15 (text "moves gimbal incrementally") 0x04
    ∷ dangerous (text "gimbal_recenter") 0x4C (text "recenters gimbal") 0x04
    ∷ dangerous (text "gimbal_mode_switch") 0x1A (text "changes gimbal mode") 0x04
    ∷ dangerous (text "camera_record") 0x02 (text "starts or stops recording") 0x02
    ∷ dangerous (text "video_stream") 0x8E (text "starts or stops streaming") 0x02
    ∷ dangerous (text "wifi_provision") 0x47 (text "changes camera Wi-Fi") 0x07
    ∷ []

abbrev pub commands_by_name : List CommandDefinition
commands_by_name = pairing_commands ++ dangerous_commands
