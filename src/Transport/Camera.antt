-- ===== src/Transport/Camera.antt =====
-- protocol/camera_actions.py, and transport/dji_wifi_udp.py where it sends them.
use openframetap.Prelude.{
  some, ℕ, Bool, List, [], ◌∷◌, ◌++◌, length, ◌+◌, not, Result, ok, err, map_err, reject_if, ◌>>◌,
  ◌>>=◌,
}
use openframetap.Bytes.{to_little}
use openframetap.Texts.{text}
use openframetap.Duml.{DumlFields, encode_duml_frame}
use openframetap.DjiWifi.{EnvelopeError}
use openframetap.DjiWifi.Envelope.{Envelope, encode_envelope}
use openframetap.DjiWifi.Sequencer.{Sequencer, build}
use openframetap.Transport.{
  Transport, TransportError, ActionError, envelope_refused, camera_refused, point_outside,
  unknown_action, encode_refused, wire_sequence,
}
use openframetap.Transport.Sends.{Sent, send_encoded, on_session}

-- `CameraAction`. A focus point is whether both coordinates are finite and from zero to one, and the
-- eight octets that `struct.pack` makes of them.
pub data CameraAction : Type 0 where
  recenter flip query_formats other_action : CameraAction
  focus : Bool → List ℕ → CameraAction

-- receiver, cmd_set, cmd_id, payload
pub record ActionFields : Type 0 where
  pub receiver : ℕ
  pub cmd_set : ℕ
  pub cmd_id : ℕ
  pub payload : List ℕ

abbrev pub to_fields : ℕ → ℕ → ℕ → List ℕ → ActionFields
to_fields receiver cmd_set cmd_id payload = record {
  receiver = receiver;
  cmd_set = cmd_set;
  cmd_id = cmd_id;
  payload = payload;
}

abbrev pub zeros_after : List ℕ
zeros_after = 0 ∷ 0 ∷ 0 ∷ 0 ∷ 0 ∷ 0 ∷ 0 ∷ 0 ∷ 0 ∷ 0 ∷ 0 ∷ 0 ∷ 0 ∷ []

abbrev pub formats_key : List ℕ
formats_key = text "camcap_video_format"

unfoldable pub formats_payload : List ℕ
formats_payload =
    (2 ∷ 2 ∷ 0 ∷ 0 ∷ [])
    ++ to_little 4 0x6ADF
    ++ (0 ∷ 0 ∷ 0 ∷ [])
    ++ to_little 2 (length formats_key + 6)
    ++ to_little 2 (length formats_key)
    ++ formats_key
    ++ 0 ∷ 0 ∷ 0 ∷ 0 ∷ []

-- `fields`
unfoldable pub action_fields : CameraAction → Result ActionError ActionFields
action_fields recenter = ok (to_fields 4 4 0x4C (0xFE ∷ 0x08 ∷ []))
action_fields flip = ok (to_fields 4 4 0x4C (0xFE ∷ 0x09 ∷ []))
action_fields (focus within point) = do
  reject_if (not within) point_outside
  ok (to_fields 1 2 0x30 (point ++ zeros_after))
action_fields query_formats = ok (to_fields 0x28 0 0x99 formats_payload)
action_fields other_action = err unknown_action

abbrev pub action_duml : ActionFields → ℕ → DumlFields
action_duml a sequence = record {
  sender = 2;
  receiver = a.receiver;
  sequence = sequence;
  flags = 0x40;
  cmd_set = a.cmd_set;
  cmd_id = a.cmd_id;
  payload = a.payload;
  version = 1;
}

-- `encode`
unfoldable pub encode_action : CameraAction → ℕ → Result ActionError (List ℕ)
encode_action a sequence = do
  fields ← action_fields a
  map_err encode_refused (encode_duml_frame (action_duml fields sequence))

-- The envelope of an action is not checked against the operator's policy.
abbrev pub send_camera_built : Bool → Transport → Sequencer × Result EnvelopeError Envelope → Sent
send_camera_built taken t (s, err e) = (record t { sequencer = some s }, err (envelope_refused e))
send_camera_built taken t (s, ok envelope) =
    send_encoded taken envelope (record t { sequencer = some s }) (encode_envelope envelope)

abbrev pub send_camera_frame : Bool → Sequencer → Transport → Result TransportError (List ℕ) → Sent
send_camera_frame taken s t (err e) = (t, err e)
send_camera_frame taken s t (ok duml) = send_camera_built taken t (build s duml)

-- the frame of an action, by the counter
unfoldable pub camera_frame : CameraAction → ℕ → Result TransportError (List ℕ)
camera_frame a counter = do
  sequence ← wire_sequence counter
  map_err camera_refused (encode_action a sequence)

-- the action is checked before the socket
abbrev pub camera_checked : CameraAction → Bool → Transport → Result ActionError ActionFields → Sent
camera_checked a taken t (err e) = (t, err (camera_refused e))
camera_checked a taken t (ok fields) =
    on_session t t.is_open t.sequencer
      λ s. send_camera_frame taken s t (camera_frame a t.duml_sequence)

-- `send_camera_action`
unfoldable pub transport_camera : CameraAction → Bool → Transport → Sent
transport_camera a taken t = camera_checked a taken t (action_fields a)
