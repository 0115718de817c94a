-- ===== src/Safety.antt =====
-- control/safety.py: the fail-closed controller of the gimbal. The clock is a sequence of readings,
-- and the sink one of outcomes; both are counted by the controller that uses them.
pub mod Setup
pub mod Machine
pub mod Ticks
pub mod Sends
pub mod Stops
pub mod Moves
pub mod Calls
pub mod Recovers
pub mod Arming
use openframetap.Floats.{Floats, ℤ, nought, minimum, maximum, within}
use openframetap.Gimbal.{BuildError, CommandRejected, validate_gimbal_control_frame}
use openframetap.Gimbal.Axes.{AxisProfile, build_axes_frame, build_axes_zero}
use openframetap.Prelude.{if◌then◌else◌, [], Option, ◌∷◌, ℕ, List, Bool}

pub data ControlState : Type 0 where
  disabled armed active stopping fault disconnected : ControlState

-- The names that `missing` lists.
pub data Prerequisite : Type 0 where
  ble_connected application_paired notifications_active profile_validated : Prerequisite
  emergency_stop_available watchdog_running ui_focused : Prerequisite

-- `ControlPrerequisites`, as its names with their values, in the order of the fields.
abbrev pub Prerequisites : Type 0
Prerequisites = List (Prerequisite × Bool)

pub record ControlPrerequisites : Type 0 where
  pub ble_connected : Bool
  pub application_paired : Bool
  pub notifications_active : Bool
  pub profile_validated : Bool
  pub emergency_stop_available : Bool
  pub watchdog_running : Bool
  pub ui_focused : Bool

abbrev pub items : ControlPrerequisites → Prerequisites
items p =
    (Prerequisite.ble_connected, p.ble_connected)
    ∷ (Prerequisite.application_paired, p.application_paired)
    ∷ (Prerequisite.notifications_active, p.notifications_active)
    ∷ (Prerequisite.profile_validated, p.profile_validated)
    ∷ (Prerequisite.emergency_stop_available, p.emergency_stop_available)
    ∷ (Prerequisite.watchdog_running, p.watchdog_running)
    ∷ (Prerequisite.ui_focused, p.ui_focused)
    ∷ []

abbrev pub absent : Prerequisites → List Prerequisite
absent [] = []
absent ((name, value) ∷ rest) = if value then absent rest else name ∷ absent rest

unfoldable pub missing : ControlPrerequisites → List Prerequisite
missing p = absent (items p)

pub record ControlConfig (W : Type 0) : Type 0 where
  pub frequency_hz : W
  pub watchdog_ms : ℕ
  pub maximum_movement_ms : ℕ
  pub max_axis : W
  pub zero_retry_limit : ℕ

pub data ConfigError : Type 0 where
  frequency_outside watchdog_outside movement_outside axis_outside retries_outside : ConfigError

-- app/input.py: `ControlInput`
pub data Source : Type 0 where
  nobody safety keyboard touch mock gamepad_unavailable : Source

pub record ControlInput (W : Type 0) : Type 0 where
  pub yaw : W
  pub pitch : W
  pub recenter_pressed : Bool
  pub record_pressed : Bool
  pub photo_pressed : Bool
  pub emergency_stop : Bool
  pub exit_requested : Bool
  pub source : Source
  pub monotonic_ns : ℕ
  pub active : Bool

-- Why frames are sent, and why the state changes.
pub data Reason : Type 0 where
  input_active watchdog_timeout input_released maximum_movement_duration send_failure : Reason
  ble_disconnected window_focus_lost writer_cancelled emergency_stop controller_stop : Reason
  given : List ℕ → Reason

pub data Cause : Type 0 where
  because zero_sent : Reason → Cause
  prerequisites_confirmed zero_unconfirmed nonzero_sent send_failure_after_zero : Cause

pub data SendError : Type 0 where
  build_failed : BuildError → SendError
  policy_refused : CommandRejected → SendError
  sink_failed : SendError

pub data FaultReason : Type 0 where
  zero_attempt_failed : ℕ → SendError → FaultReason
  nonzero_send_failed : SendError → FaultReason

pub data WatchdogState : Type 0 where
  inactive healthy expired : WatchdogState

-- What `on_transition` is told.
pub record Transition : Type 0 where
  pub monotonic_ns : ℕ
  pub previous : ControlState
  pub next : ControlState
  pub cause : Cause

-- A frame as it is presented to the sink, which may fail.
pub record Presented : Type 0 where
  pub frame : List ℕ
  pub is_zero : Bool
  pub reason : Reason

-- `FailClosedController`. The last four fields are the surroundings: the clock's readings and the
-- sink's calls so far, the frames presented to the sink and the transitions reported, both with
-- the newest first.
pub record Controller (W : Type 0) : Type 0 where
  pub config : ControlConfig W
  pub profile : AxisProfile W
  pub live : Bool
  pub reports : Bool
  pub state : ControlState
  pub sequence : ℕ
  pub latest_input : ControlInput W
  pub last_input_ns : Option ℕ
  pub last_send_ns : Option ℕ
  pub active_since_ns : Option ℕ
  pub last_zero_ns : Option ℕ
  pub watchdog_state : WatchdogState
  pub emergency_latched : Bool
  pub neutral_required : Bool
  pub fault_reason : Option FaultReason
  pub reads : ℕ
  pub calls : ℕ
  pub presented : List Presented
  pub transitions : List Transition

pub data ControlError : Type 0 where
  cannot_arm_from : ControlState → ControlError
  missing_prerequisites : List Prerequisite → ControlError
  axes_not_normalized : ControlError

-- The clock's readings and the failures of the sink, by their number.
pub record Surroundings : Type 0 where
  pub clock : ℕ → ℕ
  pub sink_fails : ℕ → Bool
