-- ===== src/StickControl/Pulse/Bounded.antt =====
-- control/gimbal_controller.py: how far a pulse goes, and how it ends.
use openframetap.StickControl.{
  centered, yaw, pitch, positive, negative, unknown_axis, unknown_direction,
}
use openframetap.Prelude.{
  ◌∷◌, subst, ◌||◌, ◌==◌, not, Bool, ap, ◌∙◌, refl, inr, arith, ◌⊎◌, inl, ◌+◌, Bool-cases, ◌≤◌, ◌≡◌,
  ℕ, false, true, some, ok, err,
}
use openframetap.StickControl.{
  pulse_fixed, unlisted_pulse, not_armed, watchdog_timeout, PulseDirection, active, PulseAxis,
  UdpController, UdpWorld, Step, fault, timed_out, UdpError, and_then, center_twice, enter,
}
use openframetap.StickControl.Pulse.Emits.{Emitting, emit-Emitting}
use openframetap.StickControl.Bursts.{twice-centered, repeated, Centering, twice-Centering}
use openframetap.StickControl.Pulse.{
  is_listed, is_armed, is_timeout, emit_non_center, after_pulse, pulse_checked, pulse,
  pulse_command,
}
use openframetap.StickProfile.{center_stick_command, stick, StickCommand, is_center}

-- The command that moves the gimbal by sixteen units: pitch and yaw around 1024.
abbrev pub step_of : PulseAxis → PulseDirection → StickCommand
step_of yaw positive = stick 1024 1040
step_of yaw negative = stick 1024 1008
step_of pitch positive = stick 1040 1024
step_of pitch negative = stick 1008 1024
step_of _ _ = stick 1024 1024

pulse_command-step_of :
    (axis : PulseAxis) (direction : PulseDirection)
    → is_listed axis direction ≡ true
    → pulse_command axis direction 16 ≡ step_of axis direction
pulse_command-step_of yaw positive h = refl
pulse_command-step_of yaw negative h = refl
pulse_command-step_of pitch positive h = refl
pulse_command-step_of pitch negative h = refl
pulse_command-step_of yaw unknown_direction h = absurd (cc h)
pulse_command-step_of pitch unknown_direction h = absurd (cc h)
pulse_command-step_of unknown_axis direction h = absurd (cc h)

listed_moves :
    (axis : PulseAxis) (direction : PulseDirection)
    → is_listed axis direction ≡ true
    → is_center (pulse_command axis direction 16) ≡ false
listed_moves yaw positive h = refl
listed_moves yaw negative h = refl
listed_moves pitch positive h = refl
listed_moves pitch negative h = refl
listed_moves yaw unknown_direction h = absurd (cc h)
listed_moves pitch unknown_direction h = absurd (cc h)
listed_moves unknown_axis direction h = absurd (cc h)

-- What a pulse that succeeds leaves: two moves, six centers behind them, and a centered controller.
pub record Centered (move : StickCommand) (c a : UdpController) : Type 0 where
  pub moves : a.non_center_packets ≡ c.non_center_packets + 2
  pub centers : a.center_packets ≡ c.center_packets + 6
  pub order :
      a.sent
      ≡ stick 1024 1024
        ∷ stick 1024 1024
        ∷ stick 1024 1024
        ∷ stick 1024 1024
        ∷ stick 1024 1024
        ∷ stick 1024 1024
        ∷ move
        ∷ move
        ∷ c.sent
  pub state : a.state ≡ centered

-- How the frames of a pulse end.
record Ended (move : StickCommand) (c : UdpController) (r : Step) : Type 0 where
  pub at_most : (r.0).non_center_packets ≤ c.non_center_packets + 2
  pub done : r.1 ≡ ok tt → Centered move c r.0
  pub failed : (e : UdpError) → r.1 ≡ err e → (r.0).state ≡ fault

-- How a pulse ends.
pub record Pulsed (move : StickCommand) (c : UdpController) (r : Step) : Type 0 where
  pub at_most : (r.0).non_center_packets ≤ c.non_center_packets + 2
  pub done : r.1 ≡ ok tt → Centered move c r.0
  pub failed : (e : UdpError) → r.1 ≡ err e → (r.0 ≡ c) ⊎ ((r.0).state ≡ fault)

module _ (world : UdpWorld) (command : StickCommand) where
  -- a pulse that has run out of time
  timed-Ended :
      (c a : UdpController) (r : Step)
      → a.non_center_packets ≤ c.non_center_packets + 2
      → Centering 6 a r
      → Ended command c (and_then r (λ c'. (enter world fault c', err timed_out)))
  timed-Ended c a (x, ok u) h k = record {
    at_most = omega (arith, h, k.still);
    done = λ e. absurd (cc e);
    failed = λ e h. refl;
  }
  timed-Ended c a (x, err e) h k = record {
    at_most = omega (arith, h, k.still);
    done = λ e. absurd (cc e);
    failed = k.failed;
  }

  after_pulse-Ended :
      (c : UdpController) (r : Step)
      → Emitting command 2 c r
      → Ended command c (after_pulse world r)
  after_pulse-Ended c (a, ok u) h =
      let k = twice-Centering world a in
      record {
        at_most = omega (arith, h.at_most, k.still);
        done = λ e. record {
          moves = k.still ∙ h.done refl;
          centers = k.done e ∙ ap (λ t. t + 6) h.centers;
          order = k.logged e ∙ ap (repeated 6 center_stick_command) (h.logged refl);
          state = twice-centered world a e;
        };
        failed = k.failed;
      }
  after_pulse-Ended c (a, err e) h = elim (Bool-cases (is_timeout e)) [
    | inl late ↦
        let b : UdpController = record a {
          watchdog_triggered = true;
          fault_reason = some watchdog_timeout;
        } in
        rw late (timed-Ended c b (center_twice world b) h.at_most (twice-Centering world b))
    | inr other ↦ rw other (record {
      at_most = h.at_most;
      done = λ k. absurd (cc k);
      failed = λ x k. by_state (h.failed e refl) other;
    })
  ]
    where
      by_state : (e ≡ timed_out) ⊎ (a.state ≡ fault) → is_timeout e ≡ false → a.state ≡ fault
      by_state (inl t) o = absurd (cc (rw t at o))
      by_state (inr s) o = s

  checked-Ended :
      (c : UdpController)
      → is_center command ≡ false
      → Ended command c (pulse_checked world command 2 c)
  unfolding pulse_checked
  checked-Ended c moves =
      let b = enter world active c in
      let s : UdpController = record b { reads = b.reads + 1; watchdog_expired = false } in
      let h =
        after_pulse-Ended s (emit_non_center world 2 command (world.clock b.reads) s)
          (emit-Emitting world command moves 2 (world.clock b.reads) s) in
      record {
        at_most = h.at_most;
        done = λ e.
            (let a = h.done e in
              record { moves = a.moves; centers = a.centers; order = a.order; state = a.state });
        failed = h.failed;
      }

module _ (world : UdpWorld) where
  -- A pulse sends at most two packets that move the gimbal. If it succeeds it has sent two, both of
  -- sixteen units on its axis and in its direction, and after them six centers and nothing else, and
  -- the controller is centered; if it raises, the controller is unchanged or in the fault state.
  pub pulse-Pulsed :
      (axis : PulseAxis) (direction : PulseDirection) (offset frames : ℕ) (is_ten_hz : Bool)
      (c : UdpController)
      → Pulsed (step_of axis direction) c (pulse world axis direction offset frames is_ten_hz c)
  unfolding pulse
  pulse-Pulsed axis direction offset frames is_ten_hz c = elim (Bool-cases (is_armed c.state)) [
    | inr bad ↦ rw bad (refused (not_armed c.state))
    | inl ready ↦ elim (Bool-cases (is_listed axis direction)) [
      | inr bad ↦ rw (ready, bad) (refused unlisted_pulse)
      | inl listed ↦ elim (Bool-cases (not (offset == 16) || not (frames == 2) || not is_ten_hz)) [
        | inl bad ↦ rw (ready, listed, bad) (refused pulse_fixed)
        | inr fixed ↦
            rw (ready, listed, fixed)
              (pulsed offset frames (ground (arith, fixed)) (ground (arith, fixed)) listed)
      ]
    ]
  ]
    where
      pulsed :
          (offset frames : ℕ)
          → offset ≡ 16
          → frames ≡ 2
          → is_listed axis direction ≡ true
          → Pulsed
              (step_of axis direction)
              c
              (pulse_checked world (pulse_command axis direction offset) frames c)
      pulsed offset frames o n listed =
          let h =
            checked-Ended world (pulse_command axis direction 16) c
              (listed_moves axis direction listed) in
          rw (o, n)
            (record {
              at_most = h.at_most;
              done = λ e.
                  subst
                    (λ move.
                      Centered move c (pulse_checked world (pulse_command axis direction 16) 2 c).0)
                    (pulse_command-step_of axis direction listed) (h.done e);
              failed = λ e k. inr (h.failed e k);
            })

      refused : (e : UdpError) → Pulsed (step_of axis direction) c (c, err e)
      refused e = record {
        at_most = omega arith;
        done = λ h. absurd (cc h);
        failed = λ x h. inl refl;
      }
