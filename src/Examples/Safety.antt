-- ===== src/Examples/Safety.antt =====
-- control/safety.py: a gimbal that is armed, moved and stopped, with floats as thousandths.
use openframetap.Floats.{Floats, ℤ, pos, negsuc, abs}
use openframetap.Gimbal.{pocket3_speed_profile}
use openframetap.Gimbal.Axes.{AxisProfile}
use openframetap.Safety.{
  prerequisites_confirmed, healthy, Source, disabled, armed, Controller, ControlPrerequisites,
  ControlInput, ControlConfig, ControlState, Reason, Surroundings,
}
use openframetap.Safety.Machine.{arm, stop_now, zero_out}
use openframetap.Safety.Sends.{Accepted, Extends}
use openframetap.Safety.Stops.{stop_now-EmergencyOutcome, EmergencyOutcome, ZeroFrame}
use openframetap.Safety.Calls.{
  ControlCall, calls, calls-Extends, ticked, submitted, armed_with, unfocused,
}
use openframetap.Safety.Recovers.{zero_out-succeeds, Stoppable}
use openframetap.Safety.Arming.{arm-needs, Confirmed}
use openframetap.Examples.Gimbal.{pocket3_speed_profile-IsProfile}
use openframetap.Prelude.{
  ◌-◌, ltb, if◌then◌else◌, ◌&&◌, zero, refl, not, ◌⊎◌, ◌==◌, ◌/◌, suc, ok, leb, arith, [], ◌≡◌, ◌∷◌,
  ◌+◌, ◌*◌, ℕ, true, false, List, Bool,
}
use openframetap.Safety.Setup.{new_controller}

abbrev pub opposite : ℤ → ℤ
opposite (pos zero) = pos zero
opposite (pos (suc n)) = negsuc n
opposite (negsuc n) = pos (suc n)

abbrev at_most : ℤ → ℤ → Bool
at_most (pos a) (pos b) = leb a b
at_most (pos a) (negsuc b) = false
at_most (negsuc a) (pos b) = true
at_most (negsuc a) (negsuc b) = leb b a

-- the sign of the first number, at the second's size
abbrev pub signed_as : ℤ → ℕ → ℤ
signed_as (pos a) n = pos n
signed_as (negsuc a) n = opposite (pos n)

abbrev plus : ℤ → ℤ → ℤ
plus (pos a) (pos b) = pos (a + b)
plus (pos a) (negsuc b) = if ltb a (suc b) then negsuc (b - a) else pos (a - suc b)
plus (negsuc a) (pos b) = if ltb b (suc a) then negsuc (a - b) else pos (b - suc a)
plus (negsuc a) (negsuc b) = negsuc (suc (a + b))

instance abbrev pub thousandths : Floats ℤ
thousandths = record {
  literal = λ num den. pos (num * 1000 / den);
  neg = opposite;
  sub = λ a b. plus a (opposite b);
  lt = λ a b. not (at_most b a);
  le = at_most;
  eq = λ a b. at_most a b && at_most b a;
  rounded_units = λ value dps. signed_as value ((abs value * abs dps + 50000) / 100000);
  period_ns = λ frequency. 1000000000000 / abs frequency;
}

abbrev slow_profile : AxisProfile ℤ
slow_profile = record {
  base = pocket3_speed_profile;
  reference_speed_dps = pos 30000;
  max_live_axis = pos 150;
}

abbrev slow_config : ControlConfig ℤ
slow_config = record {
  frequency_hz = pos 20000;
  watchdog_ms = 300;
  maximum_movement_ms = 2000;
  max_axis = pos 150;
  zero_retry_limit = 3;
}

-- A clock of ten milliseconds a reading, and a sink that fails once, at its second call.
abbrev quick : Surroundings
quick = record { clock = λ n. n * 10000000; sink_fails = λ n. n == 1 }

abbrev all_confirmed : ControlPrerequisites
all_confirmed = record {
  ble_connected = true;
  application_paired = true;
  notifications_active = true;
  profile_validated = true;
  emergency_stop_available = true;
  watchdog_running = true;
  ui_focused = true;
}

abbrev to_the_left : ControlInput ℤ
to_the_left = record {
  yaw = negsuc 99;
  pitch = pos 0;
  recenter_pressed = false;
  record_pressed = false;
  photo_pressed = false;
  emergency_stop = false;
  exit_requested = false;
  source = Source.keyboard;
  monotonic_ns = 0;
  active = true;
}

abbrev moving : List (ControlCall ℤ)
moving = armed_with all_confirmed ∷ submitted to_the_left ∷ ticked ∷ ticked ∷ unfocused ∷ []

abbrev begun : Controller ℤ
begun = new_controller slow_config slow_profile false true

-- The controller that has been armed and given an input.
abbrev ready : Controller ℤ
ready = calls quick (armed_with all_confirmed ∷ submitted to_the_left ∷ []) begun

calls-Extends_example : Extends (Accepted slow_profile false) 20 begun (calls quick moving begun)
unfolding new_controller
calls-Extends_example = calls-Extends quick moving begun

ready_no_units : pos ((0 * abs ready.profile.reference_speed_dps + 50000) / 100000) ≡ pos 0
unfolding calls new_controller
ready_no_units = refl

stop_now-EmergencyOutcome_example :
    EmergencyOutcome quick ready
      (ZeroFrame ready.profile ready.live)
      (stop_now quick ready Reason.emergency_stop)
stop_now-EmergencyOutcome_example =
    stop_now-EmergencyOutcome quick ready Reason.emergency_stop ready_no_units

slow_profile-Stoppable : Stoppable slow_profile false
slow_profile-Stoppable = record {
  octets = pocket3_speed_profile-IsProfile;
  validated = refl;
  zero_within = refl;
  zero_units = refl;
}

-- One frame has been sent, so the first attempt is the sink's second call, which fails.
abbrev sent_once : Controller ℤ
sent_once = record begun { calls = 1; sequence = 1 }

zero_out-succeeds_example :
    ((zero_out quick sent_once Reason.emergency_stop disabled).1 ≡ true)
    × ((zero_out quick sent_once Reason.emergency_stop disabled).0.state ≡ disabled)
unfolding new_controller
zero_out-succeeds_example =
    zero_out-succeeds quick sent_once Reason.emergency_stop disabled 1 (omega arith) refl
      slow_profile-Stoppable (omega arith)

abbrev armed_now : Controller ℤ
armed_now = record begun {
  state = armed;
  watchdog_state = healthy;
  reads = 1;
  transitions =
      record {
        monotonic_ns = 0;
        previous = disabled;
        next = armed;
        cause = prerequisites_confirmed;
      }
      ∷ [];
}

arms : arm quick begun all_confirmed ≡ ok armed_now
unfolding arm new_controller
arms = refl

arm-needs_example :
    Confirmed all_confirmed
    × ((begun.state ≡ disabled) ⊎ (begun.state ≡ ControlState.disconnected))
    × (armed_now.state ≡ armed)
    × (armed_now.emergency_latched ≡ false)
    × (armed_now.neutral_required ≡ false)
arm-needs_example = arm-needs quick begun armed_now all_confirmed arms
