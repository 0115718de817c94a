-- ===== src/Commands.antt =====
-- protocol/commands.py: what a command is, and who may send it.
pub mod Tables
pub mod Livestream
pub mod Normal
pub mod Payloads
pub mod Validate
pub mod Authorized
pub mod Frames
pub mod LiveFrames
pub mod Agrees
pub mod Replies
use Prim.Native.String.{String}
use openframetap.Texts.{all_of, text, is_blank, lower_letter, is_hexadecimal, is_in}
use openframetap.Prelude.{
  ◌>>=◌, ◌==◌, ◌&&◌, true, ok, length, some, reject_if, not, if◌then◌else◌, ◌||◌, ◌>>◌, none, map,
  false, err, Result, Option, Bool, ℕ, List, [], ◌∷◌,
}
use openframetap.Bytes.{same_bytes}

pub record CommandDefinition : Type 0 where
  pub name : List ℕ
  pub sender : ℕ
  pub receiver : ℕ
  pub cmd_set : ℕ
  pub cmd_id : ℕ
  pub payload_schema : String
  pub ack_required : Bool
  pub allowed_in_current_phase : Bool
  pub reference_sources : List String
  pub confidence : String
  pub danger : Option (List ℕ)

pub record SendAuthorization : Type 0 where
  pub allowed_command_names : List (List ℕ)
  pub purpose : List ℕ
  pub approval_reference : List ℕ
  pub approved_at : List ℕ
  pub explicitly_approved_denied_commands : List (List ℕ)
  pub approved_frame_sha256 : Option (List ℕ)

pub data AuthorizationError : Type 0 where
  empty_reference empty_fields digest_not_hexadecimal : AuthorizationError
  no_denied_override : List ℕ → AuthorizationError

-- `EXPLICIT_DENIED_FRAME_OVERRIDES`, names with digests
abbrev pub explicit_denied_frame_overrides : List (List ℕ × List ℕ)
explicit_denied_frame_overrides =
    (
      text "prepare_stream_transport",
      text "624c92dc2ce9364346e1b5e548f8be260b9f21e35fca20503b38315c90999286",
    )
    ∷ (
      text "start_live_stream_transport",
      text "a5ea033f25d80ddd6b7ffe2f09b9693abede7c95458fab1da88b3bc140c6d150",
    )
    ∷ []

-- a dictionary's get, with the equality of texts
abbrev pub entry {ℓ} : {A : Type ℓ} → List (List ℕ × A) → List ℕ → Option A
entry [] name = none
entry ((key, value) ∷ rest) name = if same_bytes name key then some value else entry rest name

abbrev pub same_digest : Option (List ℕ) → List ℕ → Bool
same_digest none digest = false
same_digest (some known) digest = same_bytes known digest

-- EXPLICIT_DENIED_FRAME_OVERRIDES.get(command_name) == digest
unfoldable pub is_override : List ℕ → List ℕ → Bool
is_override command_name digest =
    same_digest (entry explicit_denied_frame_overrides command_name) digest

-- The class methods of `SendAuthorization`, at a time given as text.
module _ (now : List ℕ) where
  unfoldable pub pairing_authorization : List ℕ → Result AuthorizationError SendAuthorization
  pairing_authorization approval_reference = do
    reject_if (is_blank approval_reference) empty_reference
    ok (record {
      allowed_command_names =
          text "set_pairing_pin" ∷ text "pairing_stage1_ack" ∷ text "pairing_stage2" ∷ [];
      purpose = text "Pocket 3 application-layer pairing only";
      approval_reference = approval_reference;
      approved_at = now;
      explicitly_approved_denied_commands = [];
      approved_frame_sha256 = none;
    })

  unfoldable pub single_command :
      List ℕ → List ℕ → List ℕ → Result AuthorizationError SendAuthorization
  single_command command_name purpose approval_reference = do
    reject_if (is_blank command_name || is_blank purpose || is_blank approval_reference)
        empty_fields
    ok (record {
      allowed_command_names = command_name ∷ [];
      purpose = purpose;
      approval_reference = approval_reference;
      approved_at = now;
      explicitly_approved_denied_commands = [];
      approved_frame_sha256 = none;
    })

  unfoldable pub explicit_single_frame :
      List ℕ → List ℕ → List ℕ → List ℕ → Bool → Result AuthorizationError SendAuthorization
  unfolding single_command is_override
  explicit_single_frame command_name frame_sha256 purpose approval_reference allow_denied_command =
      let digest = map lower_letter frame_sha256 in
      do
        reject_if (not (length digest == 64) || not (all_of is_hexadecimal digest))
            digest_not_hexadecimal
        reject_if (allow_denied_command && not (is_override command_name digest))
            (no_denied_override command_name)
        base ← single_command command_name purpose approval_reference
        ok (record base {
          explicitly_approved_denied_commands =
              if allow_denied_command then command_name ∷ [] else [];
          approved_frame_sha256 = some digest;
        })

  unfoldable pub bounded_gimbal_test : List ℕ → Result AuthorizationError SendAuthorization
  bounded_gimbal_test approval_reference = do
    reject_if (is_blank approval_reference) empty_reference
    ok (record {
      allowed_command_names = text "gimbal_speed_control" ∷ [];
      purpose = text "bounded Pocket 3 one-shot 04/0C validation";
      approval_reference = approval_reference;
      approved_at = now;
      explicitly_approved_denied_commands = text "gimbal_speed_control" ∷ [];
      approved_frame_sha256 = none;
    })

pub data SendRejected : Type 0 where
  requires_authorization denied_in_phase not_allowed : List ℕ → SendRejected

abbrev pub is_filled : Option (List ℕ) → Bool
is_filled none = false
is_filled (some []) = false
is_filled (some (c ∷ cs)) = true

-- bool(command.danger)
abbrev pub is_dangerous : CommandDefinition → Bool
is_dangerous command = is_filled command.danger

-- A command that needs explicit approval.
abbrev pub is_denied : CommandDefinition → Bool
is_denied command = is_dangerous command || not command.allowed_in_current_phase

unfoldable pub assert_send_allowed :
    CommandDefinition → Option SendAuthorization → Result SendRejected (Unit {0})
assert_send_allowed command none = err (requires_authorization command.name)
assert_send_allowed command (some authorization) = do
  reject_if
      (is_denied command
        && not (is_in command.name authorization.explicitly_approved_denied_commands))
      (denied_in_phase command.name)
  reject_if (not (is_in command.name authorization.allowed_command_names))
      (not_allowed command.name)

-- What `validate_command_frame` and `validate_normal_frame` refuse, in the order of the code. The
-- last is an error of `urlsplit` that is not caught.
pub data FrameRejected : Type 0 where
  encrypted ack_flag : FrameRejected
  pin_flags pin_identifier_packing pin_identifier pin_packing pin_characters : FrameRejected
  stage1_ack_differs stage2_differs prepare_live_differs : FrameRejected
  prepare_transport_differs start_transport_differs : FrameRejected
  wifi_truncated wifi_ssid wifi_psk : FrameRejected
  live_truncated live_fixed live_bitrate live_fps live_url_packing : FrameRejected
  live_url_encoding live_url_port live_url_policy : FrameRejected
  gimbal_shape gimbal_roll gimbal_speed gimbal_flag : FrameRejected
  normal_unknown normal_differs : FrameRejected
  url_unreadable : FrameRejected
