-- ===== src/Pairing.antt =====
-- pairing/state_machine.py: the fail-closed state machine of the Pocket's application pairing.
pub mod History
pub mod Responses
pub mod Attempts
use openframetap.Prelude.{
  ℕ, zero, suc, ◌+◌, Bool, true, false, not, ◌||◌, ◌&&◌, Option, none, some, List, [], ◌∷◌, ◌==◌,
  ltb, leb, if◌then◌else◌, length, get_or, Result, ok, err, ◌>>◌, reject_if,
}
use openframetap.Bytes.{same_bytes}

pub data PairingState : Type 0 where
  idle subscribed waiting_status waiting_device_confirmation ready_stage1_send : PairingState
  ready_stage2_send paired failed cancelled disconnected : PairingState

-- The `action` of a `PairingEvent`.
pub data Action : Type 0 where
  nothing propose_set_pairing_pin complete wait_for_user propose_pairing_stage1 : Action
  propose_pairing_stage2 stop : Action

-- The `detail` of a `PairingEvent`, one constructor for each message; text of the caller is a list of
-- code points.
pub data Detail : Type 0 where
  fff4_subscribed duplicate_status_ignored already_paired confirm_on_screen : Detail
  approval_captured stage1_recorded finalization_sent maximum_attempts_reached : Detail
  ble_disconnected cancelled_by_user : Detail
  confirmed_attempt unknown_status_value timeout_after : ℕ → Detail
  subscribe_received_in attempt_requested_in status_received_in : PairingState → Detail
  approval_received_in stage1_sent_in stage2_sent_in : PairingState → Detail
  unexpected_status_payload unexpected_approval_payload caller_text : List ℕ → Detail

pub record PairingEvent : Type 0 where
  pub action : Action
  pub detail : Detail

-- `PairingStateMachine`; the timeout is a count of milliseconds.
pub record Machine : Type 0 where
  pub timeout : ℕ
  pub max_attempts : ℕ
  pub attempts : ℕ
  pub state : PairingState
  pub last_error : Option Detail

pub data MachineError : Type 0 where
  timeout_not_positive attempts_not_permitted : MachineError

unfoldable pub new_machine : ℕ → ℕ → Result MachineError Machine
new_machine timeout max_attempts = do
  reject_if (leb timeout 0) timeout_not_positive
  reject_if (not (leb 1 max_attempts && leb max_attempts 2)) attempts_not_permitted
  ok (record {
    timeout = timeout;
    max_attempts = max_attempts;
    attempts = 0;
    state = idle;
    last_error = none;
  })

abbrev pub event : Action → Detail → PairingEvent
event a d = record { action = a; detail = d }

-- A transition that leaves the rest of the machine.
abbrev pub moved : Machine → PairingState → Action → Detail → Machine × PairingEvent
moved m s a d = (record m { state = s }, event a d)

-- `_fail`
abbrev pub fail : Machine → Detail → Machine × PairingEvent
fail m d = (record m { state = failed; last_error = some d }, event stop d)

abbrev pub on_subscribed : Machine → PairingState → Machine × PairingEvent
on_subscribed m idle = moved m subscribed nothing fff4_subscribed
on_subscribed m s = fail m (subscribe_received_in s)

-- an attempt in a state that permits one
unfoldable pub new_attempt : Machine → Machine × PairingEvent
new_attempt m = if leb m.max_attempts m.attempts then fail m maximum_attempts_reached else (
  record m { attempts = m.attempts + 1; last_error = none; state = waiting_status },
  event propose_set_pairing_pin (confirmed_attempt (m.attempts + 1)),
)

abbrev pub on_begin_attempt : Machine → PairingState → Machine × PairingEvent
on_begin_attempt m subscribed = new_attempt m
on_begin_attempt m failed = new_attempt m
on_begin_attempt m s = fail m (attempt_requested_in s)

-- a status payload in the state that waits for one
unfoldable pub judge_status : Machine → List ℕ → Machine × PairingEvent
judge_status m payload =
    if ltb (length payload) 2 || not (get_or payload 0 0 == 0)
    then fail m (unexpected_status_payload payload)
    else if get_or payload 1 0 == 1
    then moved m paired complete already_paired
    else if get_or payload 1 0 == 2
    then moved m waiting_device_confirmation wait_for_user confirm_on_screen
    else fail m (unknown_status_value (get_or payload 1 0))

abbrev ignored : Machine → Machine × PairingEvent
ignored m = (m, event nothing duplicate_status_ignored)

abbrev pub on_pairing_status : Machine → List ℕ → PairingState → Machine × PairingEvent
on_pairing_status m payload waiting_status = judge_status m payload
on_pairing_status m payload waiting_device_confirmation = ignored m
on_pairing_status m payload ready_stage1_send = ignored m
on_pairing_status m payload ready_stage2_send = ignored m
on_pairing_status m payload paired = ignored m
on_pairing_status m payload s = fail m (status_received_in s)

unfoldable pub judge_approval : Machine → List ℕ → Machine × PairingEvent
judge_approval m payload =
    if same_bytes payload (1 ∷ [])
    then moved m ready_stage1_send propose_pairing_stage1 approval_captured
    else fail m (unexpected_approval_payload payload)

abbrev pub on_device_approved : Machine → List ℕ → PairingState → Machine × PairingEvent
on_device_approved m payload waiting_device_confirmation = judge_approval m payload
on_device_approved m payload s = fail m (approval_received_in s)

abbrev pub on_stage1_sent : Machine → PairingState → Machine × PairingEvent
on_stage1_sent m ready_stage1_send =
    moved m ready_stage2_send propose_pairing_stage2 stage1_recorded
on_stage1_sent m s = fail m (stage1_sent_in s)

abbrev pub on_stage2_sent : Machine → PairingState → Machine × PairingEvent
on_stage2_sent m ready_stage2_send = moved m paired complete finalization_sent
on_stage2_sent m s = fail m (stage2_sent_in s)

abbrev pub on_disconnect : Machine → Machine × PairingEvent
on_disconnect m = (
  record m { state = disconnected; last_error = some ble_disconnected },
  event stop ble_disconnected,
)

abbrev pub on_cancel : Machine → Machine × PairingEvent
on_cancel m = (
  record m { state = cancelled; last_error = some cancelled_by_user },
  event stop cancelled_by_user,
)

-- The calls of the machine's methods.
pub data Call : Type 0 where
  subscribe begin_authorized_attempt stage1_sent stage2_sent timed_out disconnect cancel : Call
  pairing_status device_approved fail_unexpected : List ℕ → Call

unfoldable pub respond : Machine → Call → Machine × PairingEvent
respond m subscribe = on_subscribed m m.state
respond m begin_authorized_attempt = on_begin_attempt m m.state
respond m stage1_sent = on_stage1_sent m m.state
respond m stage2_sent = on_stage2_sent m m.state
respond m timed_out = fail m (timeout_after m.timeout)
respond m disconnect = on_disconnect m
respond m cancel = on_cancel m
respond m (pairing_status payload) = on_pairing_status m payload m.state
respond m (device_approved payload) = on_device_approved m payload m.state
respond m (fail_unexpected text) = fail m (caller_text text)

-- The machine after a history of calls, the newest first.
unfoldable pub after : Machine → List Call → Machine
unfolding respond
after m [] = m
after m (c ∷ earlier) = (respond (after m earlier) c).0

-- The events of a history, the newest first.
unfoldable pub events_of : Machine → List Call → List PairingEvent
unfolding respond after
events_of m [] = []
events_of m (c ∷ earlier) = (respond (after m earlier) c).1 ∷ events_of m earlier
