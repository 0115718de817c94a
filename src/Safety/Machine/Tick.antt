-- ===== src/Safety/Machine/Tick.antt =====
-- control/safety.py: one tick of the writer, and its loop.
use openframetap.Floats.{Floats, nought}
use openframetap.Safety.{
  disconnected, disabled, send_failure_after_zero, send_failure, nonzero_send_failed,
  maximum_movement_duration, healthy, watchdog_timeout, nonzero_sent, input_active, expired, armed,
  active, input_released, writer_cancelled, SendError, ControlState, Controller, Surroundings,
  fault,
}
use openframetap.Safety.Machine.{now_of, zero_out, transition, send, stop_now}
use openframetap.Prelude.{
  zero, none, err, ◌-◌, ◌+◌, ◌*◌, ltb, leb, ◌||◌, ◌&&◌, some, ok, false, true, suc, not,
  if◌then◌else◌, Option, ℕ, Result, Bool,
}

abbrev pub is_active : ControlState → Bool
is_active active = true
is_active _ = false

-- the test of the loop of `run`
abbrev pub goes_on : ControlState → Bool
goes_on disabled = false
goes_on fault = false
goes_on disconnected = false
goes_on _ = true

-- the tests of `tick`
module _ {W : Type 0} ⦃f : Floats W⦄ where
  -- now - last_send_ns < period_ns
  abbrev pub too_soon : Controller W → ℕ → Option ℕ → Bool
  too_soon c now none = false
  too_soon c now (some last) = ltb (now - last) (f.period_ns c.config.frequency_hz)

  abbrev pub at_zero : Controller W → Bool
  at_zero c =
      not c.latest_input.active
      || (f.eq c.latest_input.yaw nought && f.eq c.latest_input.pitch nought)

  -- the watchdog's test
  abbrev pub is_stale : Controller W → ℕ → Option ℕ → Bool
  is_stale c now none = true
  is_stale c now (some last) = ltb (c.config.watchdog_ms * 1000000) (now - last)

-- `tick` once the clock has been read, as in the rest of its body.
module _ {W : Type 0} ⦃f : Floats W⦄ (world : Surroundings) where
  -- the end of `tick`, after a frame that moves the gimbal
  unfoldable pub after_move : Controller W × Result SendError (Unit {0}) → Controller W
  unfolding zero_out transition
  after_move (c, ok _) = if is_active c.state then c else transition world c active nonzero_sent
  after_move (c, err e) =
      let r =
        zero_out world (record c { fault_reason = some (nonzero_send_failed e) }) send_failure
          fault in
      if not r.1 then r.0 else transition world (r.0) fault send_failure_after_zero

  unfoldable pub tick_due : Controller W → ℕ → Controller W
  unfolding after_move send
  tick_due c now =
      if too_soon c now c.last_send_ns
      then c
      else after_move (send world c c.latest_input.yaw c.latest_input.pitch false input_active)

  unfoldable pub tick_moving : Controller W → ℕ → Option ℕ → Controller W
  unfolding tick_due zero_out
  tick_moving c now none = tick_due (record c { active_since_ns = some now }) now
  tick_moving c now (some since) =
      if leb (c.config.maximum_movement_ms * 1000000) (now - since)
      then (zero_out world (record c { neutral_required = true }) maximum_movement_duration armed).0
      else tick_due c now

  unfoldable pub tick_healthy : Controller W → ℕ → Controller W
  unfolding tick_moving zero_out
  tick_healthy c now =
      if at_zero c
      then (if is_active c.state then (zero_out world c input_released armed).0 else c)
      else if c.neutral_required
      then c
      else tick_moving c now c.active_since_ns

  unfoldable pub tick_running : Controller W → ℕ → Controller W
  unfolding tick_healthy zero_out
  tick_running c now =
      if is_active c.state && is_stale c now c.last_input_ns
      then (zero_out world (record c { watchdog_state = expired }) watchdog_timeout armed).0
      else tick_healthy (record c { watchdog_state = healthy }) now

  abbrev pub tick_from : Controller W → ControlState → Controller W
  tick_from c armed = tick_running (record c { reads = c.reads + 1 }) (now_of world c)
  tick_from c active = tick_running (record c { reads = c.reads + 1 }) (now_of world c)
  tick_from c state = c

  unfoldable pub tick : Controller W → Controller W
  unfolding tick_running
  tick c = tick_from c c.state

  -- The rounds of `run` until it is left, within so many.
  unfoldable pub run_rounds : ℕ → Controller W → Controller W
  unfolding tick
  run_rounds zero c = c
  run_rounds (suc n) c = elim (goes_on c.state) [ false ↦ c | true ↦ run_rounds n (tick c) ]

  -- `run` of a writer that is cancelled after so many rounds
  unfoldable pub run_cancelled : ℕ → Controller W → Controller W
  unfolding run_rounds stop_now
  run_cancelled n c = (stop_now world (run_rounds n c) writer_cancelled).0
