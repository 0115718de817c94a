-- ===== src/Pairing/Responses.antt =====
-- pairing/state_machine.py: what every response counts, and when it says stop.
use openframetap.Prelude.{
  not, leb, leb→lt, ◌≢◌, ℕ, ◌+◌, ◌≤◌, ◌≡◌, refl, ◌||◌, List, [], ◌∷◌, inl, inr, arith, ◌==◌, ltb,
  length, get_or, Bool-cases, some,
}
use openframetap.Bytes.{same_bytes}
use openframetap.Pairing.{
  unknown_status_value, confirm_on_screen, wait_for_user, caller_text, unexpected_approval_payload,
  subscribe_received_in, stage2_sent_in, stage1_sent_in, cancelled_by_user, already_paired,
  unexpected_status_payload, stage1_recorded, maximum_attempts_reached, finalization_sent,
  fff4_subscribed, duplicate_status_ignored, ble_disconnected, approval_captured, timeout_after,
  status_received_in, propose_pairing_stage2, propose_pairing_stage1, nothing, event, complete,
  attempt_requested_in, approval_received_in, moved, fail, Detail, PairingState, idle, subscribed,
  waiting_status, waiting_device_confirmation, ready_stage1_send, ready_stage2_send, paired, failed,
  cancelled, disconnected, Machine, Call, subscribe, begin_authorized_attempt, stage1_sent,
  stage2_sent, timed_out, disconnect, cancel, pairing_status, device_approved, fail_unexpected,
  new_attempt, judge_status, judge_approval, on_subscribed, on_begin_attempt, on_pairing_status,
  on_device_approved, on_stage1_sent, on_stage2_sent, respond, Action, stop,
  propose_set_pairing_pin, PairingEvent,
}

abbrev pub proposals : Action → ℕ
proposals propose_set_pairing_pin = 1
proposals _ = 0

-- A response counts its proposals, and proposes while the maximum permits.
pub record Counted (m : Machine) (r : Machine × PairingEvent) : Type 0 where
  pub attempts : r.0.attempts ≡ proposals r.1.action + m.attempts
  pub maximum : r.0.max_attempts ≡ m.max_attempts
  pub bounded : m.attempts ≤ m.max_attempts → r.0.attempts ≤ m.max_attempts

abbrev pub Halted : PairingState → Type 0
Halted failed = Unit
Halted cancelled = Unit
Halted disconnected = Unit
Halted _ = ⊥

-- What a response says of a stop: it stops exactly when it ends in one of the halted states, and
-- then the machine keeps the reason.
pub record Stops (r : Machine × PairingEvent) : Type 0 where
  pub halted : r.1.action ≡ stop → Halted r.0.state
  pub stopped : Halted r.0.state → r.1.action ≡ stop
  pub reason : r.1.action ≡ stop → r.0.last_error ≡ some r.1.detail

abbrev pub Sound : Machine → Machine × PairingEvent → Type 0
Sound m r = Counted m r × Stops r

quiet :
    (m : Machine) (r : Machine × PairingEvent)
    → r.0.attempts ≡ m.attempts
    → r.0.max_attempts ≡ m.max_attempts
    → proposals r.1.action ≡ 0
    → Counted m r
quiet m r a b c = record { attempts = omega arith; maximum = b; bounded = λ h. omega arith }

module _ (m : Machine) where
  failing : (d : Detail) → Sound m (fail m d)
  failing d = (
    quiet m _ refl refl refl,
    record { halted = λ e. tt; stopped = λ h. refl; reason = λ e. refl },
  )

  -- a move to a state that goes on
  moving :
      (s : PairingState) (a : Action) (d : Detail)
      → (Halted s → ⊥)
      → a ≢ stop
      → proposals a ≡ 0
      → Sound m (moved m s a d)
  moving s a d on going none_proposed = (
    quiet m _ refl refl none_proposed,
    record {
      halted = λ e. absurd (going e);
      stopped = λ h. absurd (on h);
      reason = λ e. absurd (going e);
    },
  )

  attempt-Sound : Sound m (new_attempt m)
  unfolding new_attempt
  attempt-Sound = elim (Bool-cases (leb m.max_attempts m.attempts)) [
    | inl e ↦ rw e (failing maximum_attempts_reached)
    | inr e ↦ rw e (
      record { attempts = omega arith; maximum = refl; bounded = λ h. omega (arith, leb→lt _ _ e) },
      record { halted = λ h. cc; stopped = λ h. absurd h; reason = λ h. cc },
    )
  ]

  status-Sound : (payload : List ℕ) → Sound m (judge_status m payload)
  unfolding judge_status
  status-Sound payload =
      elim (Bool-cases (ltb (length payload) 2 || not (get_or payload 0 0 == 0))) [
        | inl bad ↦ rw bad (failing (unexpected_status_payload payload))
        | inr good ↦ elim (Bool-cases (get_or payload 1 0 == 1)) [
          | inl one ↦ rw (good, one) (moving paired complete already_paired (λ h. h) (λ h. cc) refl)
          | inr other ↦ elim (Bool-cases (get_or payload 1 0 == 2)) [
            | inl two ↦
                rw (good, other, two)
                  (moving waiting_device_confirmation wait_for_user confirm_on_screen (λ h. h)
                    (λ h. cc) refl)
            | inr unknown ↦
                rw (good, other, unknown) (failing (unknown_status_value (get_or payload 1 0)))
          ]
        ]
      ]

  approval-Sound : (payload : List ℕ) → Sound m (judge_approval m payload)
  unfolding judge_approval
  approval-Sound payload = elim (Bool-cases (same_bytes payload (1 ∷ []))) [
    | inl same ↦
        rw same (
          moving ready_stage1_send propose_pairing_stage1 approval_captured (λ h. h) (λ h. cc) refl)
    | inr other ↦ rw other (failing (unexpected_approval_payload payload))
  ]

  ignored-Sound : (Halted m.state → ⊥) → Sound m (m, event nothing duplicate_status_ignored)
  ignored-Sound on = (
    quiet m _ refl refl refl,
    record { halted = λ h. cc; stopped = λ h. absurd (on h); reason = λ h. cc },
  )

  subscribe-Sound : (s : PairingState) → Sound m (on_subscribed m s)
  subscribe-Sound idle = moving subscribed nothing fff4_subscribed (λ h. h) (λ h. cc) refl
  subscribe-Sound s = failing (subscribe_received_in s)

  begin-Sound : (s : PairingState) → Sound m (on_begin_attempt m s)
  begin-Sound subscribed = attempt-Sound
  begin-Sound failed = attempt-Sound
  begin-Sound s = failing (attempt_requested_in s)

  pairing_status-Sound :
      (payload : List ℕ) (s : PairingState) → m.state ≡ s → Sound m (on_pairing_status m payload s)
  pairing_status-Sound payload waiting_status e = status-Sound payload
  pairing_status-Sound payload waiting_device_confirmation e = ignored-Sound (rw e (λ h. h))
  pairing_status-Sound payload ready_stage1_send e = ignored-Sound (rw e (λ h. h))
  pairing_status-Sound payload ready_stage2_send e = ignored-Sound (rw e (λ h. h))
  pairing_status-Sound payload paired e = ignored-Sound (rw e (λ h. h))
  pairing_status-Sound payload s e = failing (status_received_in s)

  device_approved-Sound :
      (payload : List ℕ) (s : PairingState) → Sound m (on_device_approved m payload s)
  device_approved-Sound payload waiting_device_confirmation = approval-Sound payload
  device_approved-Sound payload s = failing (approval_received_in s)

  stage1-Sound : (s : PairingState) → Sound m (on_stage1_sent m s)
  stage1-Sound ready_stage1_send =
      moving ready_stage2_send propose_pairing_stage2 stage1_recorded (λ h. h) (λ h. cc) refl
  stage1-Sound s = failing (stage1_sent_in s)

  stage2-Sound : (s : PairingState) → Sound m (on_stage2_sent m s)
  stage2-Sound ready_stage2_send = moving paired complete finalization_sent (λ h. h) (λ h. cc) refl
  stage2-Sound s = failing (stage2_sent_in s)

  ended :
      (s : PairingState) (d : Detail)
      → Halted s
      → Sound m (record m { state = s; last_error = some d }, event stop d)
  ended s d h = (
    quiet m _ refl refl refl,
    record { halted = λ e. h; stopped = λ e. refl; reason = λ e. refl },
  )

  pub respond-Sound : (c : Call) → Sound m (respond m c)
  unfolding respond
  respond-Sound subscribe = subscribe-Sound m.state
  respond-Sound begin_authorized_attempt = begin-Sound m.state
  respond-Sound stage1_sent = stage1-Sound m.state
  respond-Sound stage2_sent = stage2-Sound m.state
  respond-Sound timed_out = failing (timeout_after m.timeout)
  respond-Sound disconnect = ended disconnected ble_disconnected tt
  respond-Sound cancel = ended cancelled cancelled_by_user tt
  respond-Sound (pairing_status payload) = pairing_status-Sound payload m.state refl
  respond-Sound (device_approved payload) = device_approved-Sound payload m.state
  respond-Sound (fail_unexpected text) = failing (caller_text text)
