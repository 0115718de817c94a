-- ===== src/StickControl.antt =====
-- control/gimbal_controller.py: the controller of the gimbal over UDP. The clock and the sink are
-- sequences of readings and of outcomes, both counted by the controller; sleeping changes nothing.
pub mod Bursts
pub mod Pulse
use openframetap.StickProfile.{StickCommand, stick, center_stick_command, is_center}
use openframetap.Prelude.{
  ◌+◌, ℕ, if◌then◌else◌, Result, Option, List, Bool, false, true, none, some, zero, suc, [], ◌∷◌,
  ok, err,
}

pub data WifiGimbalState : Type 0 where
  disabled centered armed active stopping fault : WifiGimbalState

-- The names that `missing` lists, in the order of the fields.
pub data WifiPrerequisite : Type 0 where
  pocket_ip_confirmed rtmp_publisher_online ble_telemetry_online udp_socket_ready : WifiPrerequisite
  envelope_validated center_payload_validated watchdog_running : WifiPrerequisite
  single_writer_acquired mimo_absent : WifiPrerequisite

-- `WifiControlPrerequisites`, by name.
abbrev pub WifiControlPrerequisites : Type 0
WifiControlPrerequisites = WifiPrerequisite → Bool

abbrev pub wifi_prerequisites : List WifiPrerequisite
wifi_prerequisites =
    pocket_ip_confirmed ∷ rtmp_publisher_online ∷ ble_telemetry_online ∷ udp_socket_ready
    ∷ envelope_validated ∷ center_payload_validated ∷ watchdog_running ∷ single_writer_acquired
    ∷ mimo_absent ∷ []

abbrev pub unconfirmed : WifiControlPrerequisites → List WifiPrerequisite → List WifiPrerequisite
unconfirmed p [] = []
unconfirmed p (name ∷ names) =
    let rest = unconfirmed p names in if p name then rest else name ∷ rest

-- `WifiGimbalConfig`; its other fields are fixed by its check.
pub record WifiGimbalConfig : Type 0 where
  pub maximum_non_center_ms : ℕ
  pub absolute_hard_limit_ms : ℕ
  pub input_watchdog_ms : ℕ

pub data UdpError : Type 0 where
  sink_failed empty_burst : UdpError
  missing_prerequisites : List WifiPrerequisite → UdpError
  cannot_arm_from not_armed : WifiGimbalState → UdpError
  unlisted_pulse pulse_fixed centered_input timed_out : UdpError

-- `watchdog_timeout` stands for the texts of a pulse that runs out of time.
pub data UdpFault : Type 0 where
  send_failed hard_limit watchdog_timeout : UdpFault

-- `GimbalUdpController`. The last three fields are the surroundings: the readings of the clock and the
-- calls of the sink so far, and the commands that the sink has taken, the newest first.
pub record UdpController : Type 0 where
  pub config : WifiGimbalConfig
  pub state : WifiGimbalState
  pub center_packets : ℕ
  pub non_center_packets : ℕ
  pub watchdog_triggered : Bool
  pub watchdog_expired : Bool
  pub emergency_stop_triggered : Bool
  pub last_center_ns : Option ℕ
  pub last_send_ns : Option ℕ
  pub non_center_started_ns : Option ℕ
  pub last_valid_input_ns : Option ℕ
  pub fault_reason : Option UdpFault
  pub reads : ℕ
  pub calls : ℕ
  pub sent : List StickCommand

-- The axis and the direction of a pulse; `unknown` is any text that is not listed.
pub data PulseAxis : Type 0 where
  yaw pitch unknown_axis : PulseAxis

pub data PulseDirection : Type 0 where
  positive negative unknown_direction : PulseDirection

-- The surroundings: the clock, the failures of the sink, and, by the call of the sink that is due,
-- whether the watchdog or the time limit of the pulse strikes first.
pub record UdpWorld : Type 0 where
  pub clock : ℕ → ℕ
  pub sink_fails : ℕ → Bool
  pub interrupts : ℕ → Bool

-- A controller with the outcome of a method, which may raise.
abbrev pub Step : Type 0
Step = UdpController × Result UdpError (Unit {0})

abbrev pub and_then : Step → (UdpController → Step) → Step
and_then (c, ok u) k = k c
and_then (c, err e) k = (c, err e)

module _ (world : UdpWorld) where
  -- `_transition`
  abbrev pub enter : WifiGimbalState → UdpController → UdpController
  enter state c = record c { state = state; reads = c.reads + 1 }

  -- `_send` of a frame that the sink has taken, after the counts
  abbrev pub mark_sent : UdpController → UdpController
  mark_sent c = record c { last_send_ns = some (world.clock c.reads); reads = c.reads + 1 }

  -- The first time of a movement is kept.
  abbrev pub mark_started : Option ℕ → UdpController → UdpController
  mark_started none c = record c {
    non_center_started_ns = some (world.clock c.reads);
    reads = c.reads + 1;
  }
  mark_started (some start) c = c

  abbrev pub after_send : Bool → UdpController → UdpController
  after_send true c = mark_sent (record c {
    center_packets = c.center_packets + 1;
    last_center_ns = some (world.clock c.reads);
    reads = c.reads + 1;
    calls = c.calls + 1;
  })
  after_send false c = mark_sent (
      mark_started c.non_center_started_ns (record c {
        non_center_packets = c.non_center_packets + 1;
        last_valid_input_ns = some (world.clock c.reads);
        reads = c.reads + 1;
        calls = c.calls + 1;
      }))

  -- `_send`
  unfoldable pub send_stick : StickCommand → UdpController → Step
  send_stick command c =
      if world.sink_fails c.calls
      then (
        enter fault (record c { fault_reason = some send_failed; calls = c.calls + 1 }),
        err sink_failed,
      )
      else (after_send (is_center command) (record c { sent = command ∷ c.sent }), ok tt)

  -- `send_stick` so many times
  unfoldable pub send_times : ℕ → StickCommand → UdpController → Step
  unfolding send_stick
  send_times zero command c = (c, ok tt)
  send_times (suc n) command c = and_then (send_stick command c) (λ c'. send_times n command c')

  -- the end of `center_burst`
  abbrev pub settle_center : UdpController → Step
  settle_center c = (
    enter centered (record c { non_center_started_ns = none; last_valid_input_ns = none }),
    ok tt,
  )

  unfoldable pub center_burst : ℕ → UdpController → Step
  unfolding send_times
  center_burst zero c = (c, err empty_burst)
  center_burst (suc n) c =
      and_then (send_times (suc n) center_stick_command (enter stopping c)) settle_center

  abbrev pub is_armable : WifiGimbalState → Bool
  is_armable disabled = true
  is_armable centered = true
  is_armable _ = false

  abbrev pub arm_confirmed : List WifiPrerequisite → UdpController → Step
  arm_confirmed (name ∷ names) c = (c, err (missing_prerequisites (name ∷ names)))
  arm_confirmed [] c =
      if is_armable c.state
      then and_then (center_burst 3 c) (λ c'. (enter armed c', ok tt))
      else (c, err (cannot_arm_from c.state))

  unfoldable pub arm_udp : WifiControlPrerequisites → UdpController → Step
  unfolding center_burst
  arm_udp p c = arm_confirmed (unconfirmed p wifi_prerequisites) c

  -- five centers, a pause, and one more
  unfoldable pub center_twice : UdpController → Step
  unfolding center_burst
  center_twice c = and_then (center_burst 5 c) (λ c'. center_burst 1 c')

  unfoldable pub watchdog_stop : UdpController → Step
  unfolding center_twice
  watchdog_stop c = center_twice (record c { watchdog_triggered = true })

  unfoldable pub release_live : UdpController → Step
  unfolding center_twice
  release_live c = and_then (center_twice c) (λ c'. (enter armed c', ok tt))

  unfoldable pub emergency_stop_udp : UdpController → Step
  unfolding center_twice
  emergency_stop_udp c =
      and_then (center_twice (record c { emergency_stop_triggered = true }))
        (λ c'. (enter disabled c', ok tt))

  abbrev pub is_fault : WifiGimbalState → Bool
  is_fault fault = true
  is_fault _ = false

  unfoldable pub close_udp : UdpController → Step
  unfolding emergency_stop_udp
  close_udp c = if is_fault c.state then (c, ok tt) else emergency_stop_udp c
