-- ===== src/StickControl/Pulse.antt =====
-- control/gimbal_controller.py: the pulse, the movement by axes, and the monitor of the watchdog.
mod Emits
pub mod Bounded
use openframetap.StickControl.{
  UdpError, yaw, pitch, positive, negative, unknown_axis, unknown_direction, armed, active,
  timed_out,
}
use openframetap.Prelude.{
  ◌==◌, ◌||◌, ◌*◌, ltb, leb, ◌-◌, not, Bool, ◌+◌, ℕ, if◌then◌else◌, Option, false, true, none, some,
  zero, suc, ok, err,
}
use openframetap.StickControl.{
  pulse_fixed, centered_input, unlisted_pulse, negative, hard_limit, fault, watchdog_timeout,
  send_stick, positive, not_armed, armed, active, timed_out, enter, and_then, center_twice,
  WifiGimbalState, PulseDirection, PulseAxis, UdpController, UdpWorld, Step,
}
use openframetap.StickProfile.{is_center, StickCommand, stick}

-- STICK_CENTER and round(sign * offset) of the axis that moves
abbrev pub pulse_value : PulseDirection → ℕ → ℕ
pulse_value positive offset = 1024 + offset
pulse_value negative offset = 1024 - offset
pulse_value unknown_direction offset = 1024

abbrev pub pulse_command : PulseAxis → PulseDirection → ℕ → StickCommand
pulse_command yaw direction offset = stick 1024 (pulse_value direction offset)
pulse_command pitch direction offset = stick (pulse_value direction offset) 1024
pulse_command unknown_axis direction offset = stick 1024 1024

abbrev pub is_listed : PulseAxis → PulseDirection → Bool
is_listed unknown_axis direction = false
is_listed yaw unknown_direction = false
is_listed pitch unknown_direction = false
is_listed _ _ = true

abbrev pub is_armed : WifiGimbalState → Bool
is_armed armed = true
is_armed _ = false

abbrev pub is_moving : WifiGimbalState → Bool
is_moving active = true
is_moving _ = false

abbrev pub is_timeout : UdpError → Bool
is_timeout timed_out = true
is_timeout _ = false

module _ (world : UdpWorld) where
  -- now - started >= limit
  abbrev pub is_over : UdpController → ℕ → Bool
  is_over c started =
      leb (c.config.absolute_hard_limit_ms * 1000000) (world.clock c.reads - started)

  -- `emit_non_center`, with so many frames left; the time limit of `wait_for` and the watchdog's event
  -- strike between the calls of the sink
  unfoldable pub emit_non_center : ℕ → StickCommand → ℕ → UdpController → Step
  emit_non_center zero command started c = (c, ok tt)
  emit_non_center (suc n) command started c =
      if world.interrupts c.calls
      then (c, err timed_out)
      else if is_over c started
      then (record c { reads = c.reads + 1 }, err timed_out)
      else and_then (send_stick world command (record c { reads = c.reads + 1 }))
          (λ c'. emit_non_center n command started c')

  -- what follows the frames of a pulse
  abbrev pub after_pulse : Step → Step
  after_pulse (c, ok u) = center_twice world c
  after_pulse (c, err e) =
      if is_timeout e
      then and_then
          (center_twice world
            (record c { watchdog_triggered = true; fault_reason = some watchdog_timeout }))
          (λ c'. (enter world fault c', err timed_out))
      else (c, err e)

  -- `pulse` once its arguments have been checked
  unfoldable pub pulse_checked : StickCommand → ℕ → UdpController → Step
  unfolding emit_non_center
  pulse_checked command frames c =
      let b = enter world active c in
      after_pulse (
        emit_non_center frames command (world.clock b.reads)
          (record b { reads = b.reads + 1; watchdog_expired = false }))

  unfoldable pub pulse : PulseAxis → PulseDirection → ℕ → ℕ → Bool → UdpController → Step
  unfolding pulse_checked
  pulse axis direction offset frames is_ten_hz c =
      if not (is_armed c.state)
      then (c, err (not_armed c.state))
      else if not (is_listed axis direction)
      then (c, err unlisted_pulse)
      else if not (offset == 16) || not (frames == 2) || not is_ten_hz
      then (c, err pulse_fixed)
      else pulse_checked (pulse_command axis direction offset) frames c

  -- `send_live_axes` of the command that its axes give
  unfoldable pub send_live : StickCommand → UdpController → Step
  send_live command c =
      if not (is_armed c.state || is_moving c.state)
      then (c, err (not_armed c.state))
      else if is_center command
      then (c, err centered_input)
      else send_stick world command (if is_moving c.state then c else enter world active c)

  abbrev pub is_past : Option ℕ → ℕ → ℕ → Bool
  is_past none now limit = false
  is_past (some start) now limit = leb limit (now - start)

  abbrev pub is_late : Option ℕ → ℕ → ℕ → Bool
  is_late none now limit = false
  is_late (some last) now limit = ltb limit (now - last)

  -- one round of `monitor`
  unfoldable pub monitor_round : UdpController → UdpController
  monitor_round c =
      let now = world.clock c.reads in
      let b : UdpController = record c { reads = c.reads + 1 } in
      if not (is_moving c.state)
      then c
      else if is_past c.non_center_started_ns now (c.config.absolute_hard_limit_ms * 1000000)
      then record b {
        watchdog_triggered = true;
        fault_reason = some hard_limit;
        watchdog_expired = true;
      }
      else if is_late c.last_valid_input_ns now (c.config.input_watchdog_ms * 1000000)
      then record b { watchdog_triggered = true; watchdog_expired = true }
      else b
