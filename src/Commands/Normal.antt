-- ===== src/Commands/Normal.antt =====
-- devices/pocket3_normal.py: the fixed frames of the normal mode, and the answers it reads.
use Prim.Native.String.{[]}
use openframetap.Prelude.{
  none, ok, not, some, reject_if, length, err, ℕ, Result, Option, List, Bool, false, true,
}
use openframetap.Commands.{normal_differs, normal_unknown, CommandDefinition, FrameRejected, entry}
use openframetap.Duml.{DumlFields, DumlEncodeError, DumlFrame, encode_duml_frame}
use openframetap.Network.{Readers}
use openframetap.Texts.{text, starts_with, all_of}
use openframetap.Prelude.{
  drop, ◌>>=◌, ◌+◌, none, zero, ok, not, map_err, ◌||◌, ◌++◌, ◌&&◌, suc, reject_if, length,
  if◌then◌else◌, ◌∷◌, ◌>>◌, ◌==◌, true, ltb, leb, get_or, err, [], ℕ, Result, Option, List, Bool,
}
use openframetap.Bytes.{same_bytes}

-- A value of `NORMAL_FIELDS`.
pub record NormalFields : Type 0 where
  pub receiver : ℕ
  pub cmd_set : ℕ
  pub cmd_id : ℕ
  pub payload : List ℕ

abbrev pub normal_fields : List (List ℕ × NormalFields)
normal_fields =
    (
      text "normal_stop_livestream",
      record {
        receiver = 0x08;
        cmd_set = 0x02;
        cmd_id = 0x8E;
        payload = 1 ∷ 1 ∷ 0x1A ∷ 0 ∷ 1 ∷ 2 ∷ [];
      },
    )
    ∷ (
      text "normal_session_open",
      record { receiver = 0xF0; cmd_set = 0x00; cmd_id = 0x2B; payload = 4 ∷ 0 ∷ [] },
    )
    ∷ (
      text "normal_session_keepalive",
      record { receiver = 0xF0; cmd_set = 0x00; cmd_id = 0x2B; payload = 1 ∷ 1 ∷ [] },
    )
    ∷ (
      text "normal_get_ssid",
      record { receiver = 0x07; cmd_set = 0x07; cmd_id = 0x07; payload = [] },
    )
    ∷ (
      text "normal_get_password",
      record { receiver = 0x07; cmd_set = 0x07; cmd_id = 0x0E; payload = [] },
    )
    ∷ (
      text "normal_app_presence",
      record {
        receiver = 0x28;
        cmd_set = 0x00;
        cmd_id = 0x88;
        payload = 0x17 ∷ 0 ∷ 0 ∷ 0x23 ∷ 0 ∷ 65 ∷ 80 ∷ 80 ∷ 0 ∷ 0 ∷ 0 ∷ 0 ∷ 0 ∷ 2 ∷ [];
      },
    )
    ∷ (
      text "normal_live_enable",
      record {
        receiver = 0x41;
        cmd_set = 0x09;
        cmd_id = 0xA8;
        payload = 0 ∷ 4 ∷ 2 ∷ 0 ∷ 0 ∷ 0 ∷ 0 ∷ 0 ∷ 0 ∷ 0 ∷ [];
      },
    )
    ∷ []

pub data NormalError : Type 0 where
  unknown_name : NormalError
  encode_failed : DumlEncodeError → NormalError
  query_refused length_mismatch not_utf8 control_character wpa_length not_the_hotspot : NormalError
  not_a_challenge : NormalError

-- The keyword arguments of a request with these fields.
abbrev pub normal_request : NormalFields → ℕ → DumlFields
normal_request fields sequence = record {
  sender = 2;
  receiver = fields.receiver;
  sequence = sequence;
  flags = 0x40;
  cmd_set = fields.cmd_set;
  cmd_id = fields.cmd_id;
  payload = fields.payload;
  version = 1;
}

abbrev pub build_with : Option NormalFields → ℕ → Result NormalError (List ℕ)
build_with none sequence = err unknown_name
build_with (some fields) sequence =
    map_err NormalError.encode_failed (encode_duml_frame (normal_request fields sequence))

unfoldable pub build_normal_frame : List ℕ → ℕ → Result NormalError (List ℕ)
build_normal_frame name sequence = build_with (entry normal_fields name) sequence

abbrev pub is_as_profiled : NormalFields → DumlFrame → Bool
is_as_profiled fields frame =
    frame.sender == 2
    && frame.receiver == fields.receiver
    && frame.cmd_set == fields.cmd_set
    && frame.cmd_id == fields.cmd_id
    && frame.flags == 0x40
    && same_bytes frame.payload fields.payload
    && frame.crc8_valid
    && frame.crc16_valid

abbrev pub validate_with : Option NormalFields → DumlFrame → Result FrameRejected (Unit {0})
validate_with none frame = err normal_unknown
validate_with (some fields) frame = reject_if (not (is_as_profiled fields frame)) normal_differs

unfoldable pub validate_normal_frame : List ℕ → DumlFrame → Result FrameRejected (Unit {0})
validate_normal_frame name frame = validate_with (entry normal_fields name) frame

abbrev pub is_control : ℕ → Bool
is_control c = ltb c 32 || c == 127

abbrev pub is_hexadecimal_digit : ℕ → Bool
is_hexadecimal_digit c = (leb 48 c && leb c 57) || (leb 97 c && leb c 102) || (leb 65 c && leb c 70)

abbrev pub is_wpa_password : List ℕ → Bool
is_wpa_password value =
    (leb 8 (length value) && leb (length value) 63)
    || (length value == 64 && all_of is_hexadecimal_digit value)

-- value.decode("utf-8", errors="strict")
abbrev pub decoded_text : Option (List ℕ) → Result NormalError (List ℕ)
decoded_text none = err not_utf8
decoded_text (some value) = ok value

-- the last check of a credential: a password, or the name of the hotspot
abbrev pub reject_credential : Bool → Bool → Bool → Result NormalError (Unit {0})
reject_credential true is_password is_hotspot = reject_if (not is_password) wpa_length
reject_credential false is_password is_hotspot = reject_if (not is_hotspot) not_the_hotspot

-- `parse_wifi_string`; `lower` is value.lower()
unfoldable pub parse_wifi_string :
    Readers → (List ℕ → List ℕ) → List ℕ → Bool → Result NormalError (List ℕ)
parse_wifi_string r lower payload password =
    let count = get_or payload 1 0 in
    do
      reject_if (ltb (length payload) 2 || not (get_or payload 0 0 == 0)) query_refused
      reject_if (not (length payload == count + 2)) length_mismatch
      value ← decoded_text (r.decode_utf8 (drop 2 payload))
      reject_if (not (all_of (λ c. not (is_control c)) value)) control_character
      reject_credential password (is_wpa_password value)
          (leb 1 count && leb count 32 && starts_with (lower value) (text "osmopocket3"))
      ok value

abbrev pub is_challenge : DumlFrame → Bool
is_challenge request =
    request.sender == 0x48
    && request.receiver == 2
    && request.cmd_set == 0
    && (request.cmd_id == 0x81 || request.cmd_id == 0x82)
    && request.flags == 0x40
    && length request.payload == 64
    && request.crc8_valid
    && request.crc16_valid

abbrev pub zero_octets : ℕ → List ℕ
zero_octets zero = []
zero_octets (suc n) = 0 ∷ zero_octets n

-- the 64 octets with APP from 1 on, 2 at 34, and 2 and 8 from 41 on
abbrev pub device_information : List ℕ
device_information =
    (0 ∷ 65 ∷ 80 ∷ 80 ∷ [])
    ++ zero_octets 30
    ++ (2 ∷ [])
    ++ zero_octets 6
    ++ (2 ∷ 8 ∷ [])
    ++ zero_octets 21

unfoldable pub registration_reply : DumlFrame → Result NormalError (List ℕ)
registration_reply request = do
  reject_if (not (is_challenge request)) not_a_challenge
  map_err NormalError.encode_failed (
      encode_duml_frame (record {
        sender = 2;
        receiver = 0x48;
        sequence = request.sequence;
        flags = 0x80;
        cmd_set = 0;
        cmd_id = request.cmd_id;
        payload = if request.cmd_id == 0x81 then device_information else 0 ∷ [];
        version = 1;
      }))

-- A value of `NORMAL_COMMANDS`, without the source's text on its origin.
abbrev pub normal_command : List ℕ → NormalFields → CommandDefinition
normal_command name fields = record {
  name = name;
  sender = 0x02;
  receiver = fields.receiver;
  cmd_set = fields.cmd_set;
  cmd_id = fields.cmd_id;
  payload_schema = "fixed normal-mode profile payload";
  ack_required = true;
  allowed_in_current_phase = true;
  reference_sources = "OpenPocketCine e8f272e Commands.swift; Osmosis OsmoCommands.kt" ∷ [];
  confidence = if not (same_bytes name (text "normal_session_keepalive")) then "high" else "medium";
  danger = none;
}
