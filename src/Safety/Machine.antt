-- ===== src/Safety/Machine.antt =====
-- control/safety.py: what the controller does.
pub mod Tick
use openframetap.Floats.{Floats, ℤ, nought, minimum, maximum, within}
use openframetap.Gimbal.{BuildError, CommandRejected, validate_gimbal_control_frame}
use openframetap.Gimbal.Axes.{AxisProfile, build_axes_frame, build_axes_zero}
use openframetap.Safety.{
  active, disconnected, ble_disconnected, retries_outside, movement_outside, watchdog_outside,
  zero_attempt_failed, prerequisites_confirmed, zero_sent, inactive, frequency_outside,
  axes_not_normalized, armed, sink_failed, policy_refused, missing_prerequisites, cannot_arm_from,
  build_failed, nobody, because, zero_unconfirmed, window_focus_lost, stopping, safety, disabled,
  SendError, Prerequisite, ControlError, ConfigError, Cause, missing, Source, Reason, ControlState,
  ControlPrerequisites, Controller, ControlConfig, ControlInput, Surroundings, fault, healthy,
}
use openframetap.Prelude.{
  zero, leb, ltb, [], some, bit_and, ◌||◌, reject_if, ok, none, ◌∷◌, ◌>>◌, ◌+◌, suc, not, err, ◌&&◌,
  true, if◌then◌else◌, ℕ, false, Result, List, Bool,
}
use openframetap.Safety.Setup.{check_input, at_rest}

module _ {W : Type 0} ⦃f : Floats W⦄ where
  module _ (world : Surroundings) where
    abbrev pub now_of : Controller W → ℕ
    now_of c = world.clock c.reads

    -- `_transition`
    unfoldable pub transition : Controller W → ControlState → Cause → Controller W
    transition c state cause =
        if c.reports
        then record c {
          state = state;
          reads = c.reads + 1;
          transitions =
              record { monotonic_ns = now_of c; previous = c.state; next = state; cause = cause }
              ∷ c.transitions;
        }
        else record c { state = state }

    abbrev pub arm_with : Controller W → List Prerequisite → Result ControlError (Controller W)
    arm_with c (name ∷ names) = err (missing_prerequisites (name ∷ names))
    arm_with c [] = ok (
        transition
          (record c {
            emergency_latched = false;
            neutral_required = false;
            fault_reason = none;
            watchdog_state = healthy;
          })
          armed prerequisites_confirmed)

    abbrev pub arm_from :
        Controller W → ControlPrerequisites → ControlState → Result ControlError (Controller W)
    arm_from c p disabled = arm_with c (missing p)
    arm_from c p disconnected = arm_with c (missing p)
    arm_from c p state = err (cannot_arm_from state)

    unfoldable pub arm : Controller W → ControlPrerequisites → Result ControlError (Controller W)
    unfolding transition missing
    arm c p = arm_from c p c.state

    -- max(-max_axis, min(max_axis, value))
    abbrev pub clamped : Controller W → W → W
    clamped c value = maximum (f.neg c.config.max_axis) (minimum c.config.max_axis value)

    -- The input that `submit` keeps.
    abbrev pub kept_input : Controller W → ControlInput W → ControlInput W
    kept_input c i = record {
      yaw = clamped c i.yaw;
      pitch = clamped c i.pitch;
      recenter_pressed = false;
      record_pressed = false;
      photo_pressed = false;
      emergency_stop = false;
      exit_requested = false;
      source = i.source;
      monotonic_ns = now_of c;
      active =
          i.active
          && (not (f.eq (clamped c i.yaw) nought) || not (f.eq (clamped c i.pitch) nought));
    }

    -- The clock is read also when the input is refused.
    abbrev pub keep_input :
        Controller W
        → ℕ
        → Result ControlError (ControlInput W)
        → Controller W × Result ControlError (Unit {0})
    keep_input c now (err e) = (c, err e)
    keep_input c now (ok i) = (
      record c {
        latest_input = i;
        last_input_ns = some now;
        neutral_required = if i.active then c.neutral_required else false;
      },
      ok tt,
    )

    unfoldable pub submit :
        Controller W → ControlInput W → Controller W × Result ControlError (Unit {0})
    unfolding check_input
    submit c i =
        keep_input (record c { reads = c.reads + 1 }) (now_of c) (check_input (kept_input c i))

    -- `_send` after the sink has been called
    unfoldable pub after_sink :
        Controller W → Bool → Bool → Controller W × Result SendError (Unit {0})
    after_sink c is_zero fails = if fails then (c, err sink_failed) else (
      record c {
        reads = c.reads + 1;
        last_send_ns = some (now_of c);
        last_zero_ns = if is_zero then some (now_of c) else c.last_zero_ns;
      },
      ok tt,
    )

    -- `_send` of a frame that has been built
    unfoldable pub present :
        Controller W → Bool → Reason → List ℕ → Controller W × Result SendError (Unit {0})
    unfolding after_sink
    present c is_zero reason frame =
        elim (validate_gimbal_control_frame frame c.profile.base c.live) [
          | err e ↦ (c, err (policy_refused e))
          | ok _ ↦
              after_sink
                (record c {
                  sequence = bit_and (c.sequence + 1) 0xFFFF;
                  calls = c.calls + 1;
                  presented =
                      record { frame = frame; is_zero = is_zero; reason = reason } ∷ c.presented;
                })
                is_zero (world.sink_fails c.calls)
        ]

    -- the frame that `_send` builds
    abbrev pub frame_to_send : Controller W → W → W → Bool → Result BuildError (List ℕ)
    frame_to_send c yaw pitch is_zero =
        if is_zero
        then build_axes_zero c.profile c.sequence
        else build_axes_frame c.profile c.sequence yaw pitch true false

    -- `_send`
    unfoldable pub send :
        Controller W → W → W → Bool → Reason → Controller W × Result SendError (Unit {0})
    unfolding present
    send c yaw pitch is_zero reason = elim (frame_to_send c yaw pitch is_zero) [
      | err e ↦ (c, err (build_failed e))
      | ok frame ↦ present c is_zero reason frame
    ]

    -- what `_zero` does once its frame has been sent
    abbrev pub settled : Controller W → Reason → ControlState → Controller W
    settled c reason destination =
        transition
          (record c {
            latest_input = at_rest safety (now_of c);
            reads = c.reads + 1;
            active_since_ns = none;
          })
          destination (zero_sent reason)

    -- the loop of `_zero`, with so many attempts left
    unfoldable pub zero_attempts :
        ℕ → ℕ → Controller W → Reason → ControlState → Controller W × Bool
    unfolding transition send
    zero_attempts zero attempt c reason destination = (transition c fault zero_unconfirmed, false)
    zero_attempts (suc left) attempt c reason destination =
        let r = send c nought nought true reason in
        elim (r.1) [
          | ok _ ↦ (settled (r.0) reason destination, true)
          | err e ↦
              zero_attempts left (attempt + 1)
                (record (r.0) { fault_reason = some (zero_attempt_failed attempt e) }) reason
                destination
        ]

    -- `_zero`
    unfoldable pub zero_out : Controller W → Reason → ControlState → Controller W × Bool
    unfolding zero_attempts
    zero_out c reason destination =
        zero_attempts c.config.zero_retry_limit 1 (transition c stopping (because reason)) reason
          destination

    unfoldable pub stop_now : Controller W → Reason → Controller W × Bool
    unfolding zero_out
    stop_now c reason =
        zero_out (record c { emergency_latched = true; neutral_required = true }) reason disabled

    abbrev pub disconnect_from : Controller W → ControlState → Controller W × Bool
    disconnect_from c active = zero_out c ble_disconnected disconnected
    disconnect_from c armed = zero_out c ble_disconnected disconnected
    disconnect_from c state = (transition c disconnected (because ble_disconnected), true)

    unfoldable pub disconnect : Controller W → Controller W × Bool
    unfolding zero_out transition
    disconnect c = disconnect_from c c.state

    unfoldable pub focus_lost : Controller W → Controller W × Bool
    unfolding stop_now
    focus_lost c = stop_now c window_focus_lost

    abbrev pub stop_from : Controller W → Reason → ControlState → Controller W × Bool
    stop_from c reason fault = (c, false)
    stop_from c reason disconnected = (c, false)
    stop_from c reason state = zero_out c reason disabled

    unfoldable pub stop : Controller W → Reason → Controller W × Bool
    unfolding zero_out
    stop c reason = stop_from c reason c.state
