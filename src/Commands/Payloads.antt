-- ===== src/Commands/Payloads.antt =====
-- protocol/commands.py: the payloads that `validate_command_frame` accepts, by command.
use openframetap.Commands.{
  gimbal_flag, gimbal_speed, live_url_packing, live_fps, gimbal_roll, wifi_psk, pin_identifier,
  pin_characters, live_bitrate, wifi_ssid, pin_packing, pin_identifier_packing, live_url_policy,
  live_fixed, gimbal_shape, wifi_truncated, pin_flags, live_url_port, live_truncated,
  url_unreadable, live_url_encoding, FrameRejected,
}
use openframetap.Duml.{DumlFrame}
use openframetap.Network.{NetworkError, Readers, SplitUrl, is_rfc1918}
use openframetap.Texts.{text, starts_with, split_at, last_part, all_of}
use openframetap.Prelude.{
  some, ok, ◌||◌, [], ◌∷◌, ◌==◌, ◌&&◌, take, none, length, true, not, ltb, leb, false, drop, ◌>>◌,
  ◌>>=◌, ◌+◌, reject_if, get_or, err, Bool, ℕ, Result, Option, List,
}
use openframetap.Gimbal.{is_zero, units_at}
use openframetap.Bytes.{same_bytes, from_little}
use openframetap.Floats.{abs}

-- A frame with fixed flags and a fixed payload.
abbrev pub fixed : ℕ → List ℕ → FrameRejected → DumlFrame → Result FrameRejected (Unit {0})
fixed flags payload e frame =
    reject_if (not (frame.flags == flags) || not (same_bytes frame.payload payload)) e

abbrev pub is_printable : ℕ → Bool
is_printable value = leb 0x20 value && ltb value 0x7F

-- the part of a set_pairing_pin payload after the identifier
abbrev pub validate_pin : ℕ → List ℕ → Result FrameRejected (Unit {0})
validate_pin pin_length pin = do
  reject_if (not (pin_length == length pin) || not (leb 4 pin_length && leb pin_length 8))
      pin_packing
  reject_if (not (all_of is_printable pin)) pin_characters

unfoldable pub validate_set_pairing_pin : DumlFrame → Result FrameRejected (Unit {0})
validate_set_pairing_pin frame =
    let payload = frame.payload in
    let identifier_end = 1 + get_or payload 0 0 in
    do
      reject_if (not (frame.flags == 0x40)) pin_flags
      reject_if (length payload == 0 || not (get_or payload 0 0 == 15) || ltb (length payload) 18)
          pin_identifier_packing
      reject_if (not (same_bytes (drop 1 (take identifier_end payload)) (text "001749319286102")))
          pin_identifier
      validate_pin (get_or payload identifier_end 0) (drop (identifier_end + 1) payload)

unfoldable pub validate_wifi_connect : DumlFrame → Result FrameRejected (Unit {0})
validate_wifi_connect frame =
    let payload = frame.payload in
    let ssid_length = get_or payload 0 0 in
    let psk_length_offset = 1 + ssid_length in
    let psk_length = get_or payload psk_length_offset 0 in
    do
      reject_if (ltb (length payload) 4) wifi_truncated
      reject_if (ssid_length == 0 || leb (length payload) psk_length_offset) wifi_ssid
      reject_if
          (not (psk_length_offset + 1 + psk_length == length payload)
            || not (leb 8 psk_length && leb psk_length 63))
          wifi_psk

abbrev pub is_empty_text : List ℕ → Bool
is_empty_text [] = true
is_empty_text (c ∷ cs) = false

-- not value, of a text or None
abbrev pub is_absent : Option (List ℕ) → Bool
is_absent none = true
is_absent (some value) = is_empty_text value

abbrev pub holds : Result NetworkError Bool → Bool
holds (ok b) = b
holds (err e) = false

abbrev pub is_lan_target : Readers → Option (List ℕ) → Bool
is_lan_target r none = false
is_lan_target r (some host) = not (is_empty_text host) && holds (is_rfc1918 r host)

abbrev pub is_port_1935 : Option ℕ → Bool
is_port_1935 none = false
is_port_1935 (some port) = port == 1935

-- The URL is one of the local network, /live/ and one segment, with no credentials.
abbrev pub is_within_lan_policy : Readers → SplitUrl → Option ℕ → Bool
is_within_lan_policy r parsed port =
    same_bytes parsed.scheme (text "rtmp")
    && is_lan_target r parsed.hostname
    && is_port_1935 port
    && starts_with parsed.path (text "/live/")
    && length (split_at 47 parsed.path) == 3
    && not (is_empty_text (last_part (split_at 47 parsed.path)))
    && is_empty_text parsed.query
    && is_empty_text parsed.fragment
    && is_absent parsed.username
    && is_absent parsed.password

abbrev pub or_reject {ℓ} : {A : Type ℓ} → Option A → FrameRejected → Result FrameRejected A
or_reject none e = err e
or_reject (some a) e = ok a

unfoldable pub validate_rtmp_url : Readers → List ℕ → Result FrameRejected (Unit {0})
unfolding is_rfc1918
validate_rtmp_url r url_bytes = do
  rtmp_url ← or_reject (r.decode_utf8 url_bytes) live_url_encoding
  parsed ← or_reject (r.urlsplit rtmp_url) url_unreadable
  port ← or_reject parsed.port live_url_port
  reject_if (not (is_within_lan_policy r parsed port)) live_url_policy

abbrev pub is_resolution_head : List ℕ → Bool
is_resolution_head head =
    same_bytes head (0x00 ∷ 0x2E ∷ 0x00 ∷ 0x47 ∷ [])
    || same_bytes head (0x00 ∷ 0x2E ∷ 0x00 ∷ 0x04 ∷ [])
    || same_bytes head (0x00 ∷ 0x2E ∷ 0x00 ∷ 0x0A ∷ [])

unfoldable pub validate_configure_live_stream :
    Readers → DumlFrame → Result FrameRejected (Unit {0})
unfolding validate_rtmp_url
validate_configure_live_stream r frame =
    let payload = frame.payload in
    let bitrate_kbps = from_little (drop 4 (take 6 payload)) in
    let fps = get_or payload 8 0 in
    let url_bytes = drop 14 payload in
    do
      reject_if (ltb (length payload) 15) live_truncated
      reject_if (not (is_resolution_head (take 4 payload))) live_fixed
      reject_if
          (not (leb 500 bitrate_kbps && leb bitrate_kbps 20000)
            || not (same_bytes (drop 6 (take 8 payload)) (0x02 ∷ 0x00 ∷ [])))
          live_bitrate
      reject_if
          (not (fps == 0x02 || fps == 0x03)
            || not (same_bytes (drop 9 (take 12 payload)) (0x00 ∷ 0x00 ∷ 0x00 ∷ [])))
          live_fps
      reject_if (not (from_little (drop 12 (take 14 payload)) == length url_bytes)) live_url_packing
      validate_rtmp_url r url_bytes

unfoldable pub validate_gimbal_speed : DumlFrame → Result FrameRejected (Unit {0})
validate_gimbal_speed frame =
    let pitch_units = units_at frame.payload 0 in
    let roll_units = units_at frame.payload 2 in
    let yaw_units = units_at frame.payload 4 in
    do
      reject_if (not (frame.flags == 0x40) || not (length frame.payload == 7)) gimbal_shape
      reject_if (not (is_zero roll_units)) gimbal_roll
      reject_if (ltb 45 (abs pitch_units) || ltb 45 (abs yaw_units)) gimbal_speed
      reject_if (not (get_or frame.payload 6 0 == 0x01)) gimbal_flag
