-- ===== src/Examples/Sticks.antt =====
-- control/gimbal_profile.py and control/gimbal_controller.py: a stick that is moved and centered.
use openframetap.Prelude.{[], refl, arith, ◌≡◌, ℕ, ◌*◌, List, false, true, none, ok}
use openframetap.StickProfile.{stick, encode_stick, validate_stick_duml}
use openframetap.StickProfile.RoundTrip.{validate-encode_stick}
use openframetap.StickControl.{
  center_twice, center_twice, send_stick, UdpController, UdpWorld, armed, yaw, positive,
  emergency_stop_udp,
}
use openframetap.StickControl.Bursts.{EmergencyCentered, emergency_stop-EmergencyCentered}
use openframetap.StickControl.Pulse.{pulse}
use openframetap.StickControl.Pulse.Bounded.{Pulsed, pulse-Pulsed}

validate-encode_stick_example :
    (raw : List ℕ) × (encode_stick (stick 1040 1024) 77 ≡ ok raw)
    × (validate_stick_duml raw ≡ ok (stick 1040 1024))
validate-encode_stick_example =
    validate-encode_stick 1040 1024 77 (omega arith, omega arith) (omega arith, omega arith)
      (omega arith)

-- A clock of ten milliseconds a reading, and a sink that takes everything.
abbrev open_air : UdpWorld
open_air = record { clock = λ n. n * 10000000; sink_fails = λ n. false; interrupts = λ n. false }

abbrev at_the_ready : UdpController
at_the_ready = record {
  config = record {
    maximum_non_center_ms = 250;
    absolute_hard_limit_ms = 500;
    input_watchdog_ms = 250;
  };
  state = armed;
  center_packets = 3;
  non_center_packets = 0;
  watchdog_triggered = false;
  watchdog_expired = false;
  emergency_stop_triggered = false;
  last_center_ns = none;
  last_send_ns = none;
  non_center_started_ns = none;
  last_valid_input_ns = none;
  fault_reason = none;
  reads = 0;
  calls = 3;
  sent = [];
}

pulse-Pulsed_example :
    Pulsed (stick 1024 1040) at_the_ready (pulse open_air yaw positive 16 2 true at_the_ready)
pulse-Pulsed_example = pulse-Pulsed open_air yaw positive 16 2 true at_the_ready

emergency_stop-EmergencyCentered_example :
    EmergencyCentered open_air at_the_ready (emergency_stop_udp open_air at_the_ready)
emergency_stop-EmergencyCentered_example = emergency_stop-EmergencyCentered open_air at_the_ready

-- The pulse of the example succeeds.
pulse_sent : (pulse open_air yaw positive 16 2 true at_the_ready).1 ≡ ok tt
unfolding pulse send_stick center_twice
pulse_sent = refl
