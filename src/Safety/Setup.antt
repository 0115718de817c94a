-- ===== src/Safety/Setup.antt =====
-- control/safety.py: the checks of a configuration and of an input, and a new controller.
use openframetap.Floats.{Floats, nought, within}
use openframetap.Gimbal.Axes.{AxisProfile}
use openframetap.Safety.{
  retries_outside, movement_outside, watchdog_outside, inactive, frequency_outside,
  axes_not_normalized, nobody, disabled, ControlError, ConfigError, Source, Controller,
  ControlConfig, ControlInput,
}
use openframetap.Prelude.{
  leb, ltb, [], ◌||◌, reject_if, ok, none, ◌>>◌, not, ◌&&◌, ℕ, false, Result, Bool,
}

module _ {W : Type 0} ⦃f : Floats W⦄ where
  -- `ControlConfig.__post_init__`
  unfoldable pub check_config : ControlConfig W → Result ConfigError (Unit {0})
  check_config c = do
    reject_if (not (f.lt nought c.frequency_hz && f.le c.frequency_hz (f.literal 20 1)))
        frequency_outside
    reject_if (not (ltb 0 c.watchdog_ms && leb c.watchdog_ms 300)) watchdog_outside
    reject_if (not (ltb 0 c.maximum_movement_ms && leb c.maximum_movement_ms 2000)) movement_outside
    reject_if (not (f.lt nought c.max_axis && f.le c.max_axis (f.literal 15 100)))
        ConfigError.axis_outside
    reject_if (not (leb 1 c.zero_retry_limit && leb c.zero_retry_limit 3)) retries_outside

  -- `ControlInput.__post_init__`
  unfoldable pub check_input : ControlInput W → Result ControlError (ControlInput W)
  check_input i = do
    reject_if (not (within (f.literal 1 1) i.yaw) || not (within (f.literal 1 1) i.pitch))
        axes_not_normalized
    ok i

  -- An input at rest, from its source and time.
  abbrev pub at_rest : Source → ℕ → ControlInput W
  at_rest source now = record {
    yaw = nought;
    pitch = nought;
    recenter_pressed = false;
    record_pressed = false;
    photo_pressed = false;
    emergency_stop = false;
    exit_requested = false;
    source = source;
    monotonic_ns = now;
    active = false;
  }

  unfoldable pub new_controller : ControlConfig W → AxisProfile W → Bool → Bool → Controller W
  new_controller config profile live reports = record {
    config = config;
    profile = profile;
    live = live;
    reports = reports;
    state = disabled;
    sequence = 0;
    latest_input = at_rest nobody 0;
    last_input_ns = none;
    last_send_ns = none;
    active_since_ns = none;
    last_zero_ns = none;
    watchdog_state = inactive;
    emergency_latched = false;
    neutral_required = false;
    fault_reason = none;
    reads = 0;
    calls = 0;
    presented = [];
    transitions = [];
  }
