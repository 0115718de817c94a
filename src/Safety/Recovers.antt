-- ===== src/Safety/Recovers.antt =====
-- control/safety.py: a stop succeeds if the sink takes a frame in time.
use openframetap.Floats.{Floats, nought, within, pos}
use openframetap.Gimbal.{ControlRate, validate_gimbal_control_frame}
use openframetap.Gimbal.Accepts.{build-accepted, IsProfile}
use openframetap.Gimbal.Axes.{AxisProfile, build_axes_zero, validate_axis, build_axes_frame}
use openframetap.Safety.{
  zero_attempt_failed, sink_failed, SendError, Controller, ControlState, Reason, Surroundings,
}
use openframetap.Safety.Machine.{
  settled, send, transition, zero_attempts, zero_out, present, after_sink,
}
use openframetap.Bits.{bit_and_mask}
use openframetap.Prelude.{
  subst, ap, Result, ◌∙◌, some, err, refl, zero, inl, inr, Bool-cases, suc, ◌∷◌, arith, true, ok,
  false, ◌≡◌, ◌+◌, not, ◌≤◌, ◌<◌, ◌&&◌, bit_and, ℕ, List, Bool,
}
use openframetap.Safety.Stops.{zero_out-Stopped}

module _ {W : Type 0} ⦃f : Floats W⦄ where
  -- A profile of octets whose frame of rate zero passes its own checks: zero is within the axis of
  -- one and rounds to no units, and live validation is not required or present.
  pub record Stoppable (profile : AxisProfile W) (live : Bool) : Type 0 where
    pub octets : IsProfile profile.base
    pub validated : (live && not profile.base.pocket3_hardware_validated) ≡ false
    pub zero_within : within (f.literal 1 1) nought ≡ true
    pub zero_units : f.rounded_units nought profile.reference_speed_dps ≡ pos 0

  -- The frame of rate zero is built and accepted, whatever the sequence number.
  zero-accepted :
      (profile : AxisProfile W) (live : Bool) (sequence : ℕ)
      → Stoppable profile live
      → sequence ≤ 65535
      → (frame : List ℕ) × (rate : ControlRate) × (build_axes_zero profile sequence ≡ ok frame)
        × (validate_gimbal_control_frame frame profile.base live ≡ ok rate)
  unfolding build_axes_zero build_axes_frame validate_axis
  zero-accepted profile live sequence p word =
      let (frame, rate, built, accepted, a, b, c, d) =
        build-accepted profile.base sequence (pos 0) (pos 0) live p.octets word (omega arith)
          (omega arith) p.validated in
      (frame, rate, rw (p.zero_within, p.zero_units) built, accepted)

module _ {W : Type 0} ⦃f : Floats W⦄ (world : Surroundings) where
  -- the controller that calls the sink with the frame of rate zero
  abbrev calling : Controller W → Reason → List ℕ → Controller W
  calling c reason frame = record c {
    sequence = bit_and (c.sequence + 1) 0xFFFF;
    calls = c.calls + 1;
    presented = record { frame = frame; is_zero = true; reason = reason } ∷ c.presented;
  }

  send-called :
      (c : Controller W) (reason : Reason) (frame : List ℕ) (rate : ControlRate)
      → build_axes_zero c.profile c.sequence ≡ ok frame
      → validate_gimbal_control_frame frame c.profile.base c.live ≡ ok rate
      → send world c nought nought true reason
        ≡ after_sink world (calling c reason frame) true (world.sink_fails c.calls)
  unfolding send present
  send-called c reason frame rate built accepted = rw (built, accepted, send, present) refl

  -- the rest of an attempt, once its frame has been sent
  abbrev rest :
      ℕ
      → ℕ
      → Reason
      → ControlState
      → Controller W × Result SendError (Unit {0})
      → Controller W × Bool
  rest n attempt reason destination (b, ok u) = (settled world b reason destination, true)
  rest n attempt reason destination (b, err x) =
      zero_attempts world n (attempt + 1)
        (record b { fault_reason = some (zero_attempt_failed attempt x) }) reason destination

  attempt-rest :
      (n attempt : ℕ) (c : Controller W) (reason : Reason) (destination : ControlState)
      → zero_attempts world (suc n) attempt c reason destination
        ≡ rest n attempt reason destination (send world c nought nought true reason)
  unfolding zero_attempts
  attempt-rest n attempt c reason destination = refl

  rest-works :
      (n attempt : ℕ) (b : Controller W) (reason : Reason) (destination : ControlState)
      → (rest n attempt reason destination (after_sink world b true false)).1 ≡ true
  unfolding after_sink
  rest-works n attempt b reason destination = refl

  rest-fails :
      (n attempt : ℕ) (b : Controller W) (reason : Reason) (destination : ControlState)
      → rest n attempt reason destination (after_sink world b true true)
        ≡ zero_attempts world n
            (attempt + 1)
            (record b { fault_reason = some (zero_attempt_failed attempt sink_failed) })
            reason
            destination
  unfolding after_sink
  rest-fails n attempt b reason destination = refl

  called_rest :
      (n attempt : ℕ) (c : Controller W) (reason : Reason) (destination : ControlState)
      (frame : List ℕ) (rate : ControlRate)
      → build_axes_zero c.profile c.sequence ≡ ok frame
      → validate_gimbal_control_frame frame c.profile.base c.live ≡ ok rate
      → zero_attempts world (suc n) attempt c reason destination
        ≡ rest n attempt reason destination
            (after_sink world (calling c reason frame) true (world.sink_fails c.calls))
  called_rest n attempt c reason destination frame rate built accepted =
      attempt-rest n attempt c reason destination
      ∙ ap (rest n attempt reason destination) (send-called c reason frame rate built accepted)

  attempts-succeed :
      (n k attempt : ℕ) (c : Controller W) (reason : Reason) (destination : ControlState)
      → k < n
      → world.sink_fails (c.calls + k) ≡ false
      → Stoppable c.profile c.live
      → c.sequence ≤ 65535
      → (zero_attempts world n attempt c reason destination).1 ≡ true
  attempts-succeed zero k attempt c reason destination room works p word = absurd (omega arith)
  attempts-succeed (suc n) zero attempt c reason destination room works p word =
      let (frame, rate, built, accepted) = zero-accepted c.profile c.live c.sequence p word in
      let now : world.sink_fails c.calls ≡ false =
        subst (λ t. world.sink_fails t ≡ false) (omega arith) works in
      rw (called_rest n attempt c reason destination frame rate built accepted, now)
        (rest-works n attempt (calling c reason frame) reason destination)
  attempts-succeed (suc n) (suc k) attempt c reason destination room works p word =
      let (frame, rate, built, accepted) = zero-accepted c.profile c.live c.sequence p word in
      let b : Controller W = calling c reason frame in
      let later : world.sink_fails (b.calls + k) ≡ false =
        subst (λ t. world.sink_fails t ≡ false) (omega arith) works in
      elim (Bool-cases (world.sink_fails c.calls)) [
        | inr good ↦
            rw (called_rest n attempt c reason destination frame rate built accepted, good)
              (rest-works n attempt b reason destination)
        | inl bad ↦
            rw
              (
                called_rest n attempt c reason destination frame rate built accepted,
                bad,
                rest-fails n attempt b reason destination,
              )
              (attempts-succeed n k (attempt + 1) _ reason destination (omega arith) later p
                (omega (arith, bit_and_mask 16 (c.sequence + 1))))
      ]

  -- A stop succeeds, and ends in its destination, if one of the calls of the sink that it may make does
  -- not fail, the profile is of octets, and its frame of rate zero passes the checks.
  pub zero_out-succeeds :
      (c : Controller W) (reason : Reason) (destination : ControlState) (k : ℕ)
      → k < c.config.zero_retry_limit
      → world.sink_fails (c.calls + k) ≡ false
      → Stoppable c.profile c.live
      → c.sequence ≤ 65535
      → ((zero_out world c reason destination).1 ≡ true)
        × ((zero_out world c reason destination).0.state ≡ destination)
  unfolding zero_out transition
  zero_out-succeeds c reason destination k room works p word =
      let won : (zero_out world c reason destination).1 ≡ true = elim (Bool-cases c.reports) [
        | inl on ↦
            simp on (
              attempts-succeed c.config.zero_retry_limit k 1 _ reason destination room works p word)
        | inr off ↦
            simp off (
              attempts-succeed c.config.zero_retry_limit k 1 _ reason destination room works p word)
      ] in
      (won, (zero_out-Stopped world c reason destination).done won)
