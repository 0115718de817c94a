-- ===== src/Examples/Pairing.antt =====
-- pairing/state_machine.py: a whole pairing, in one attempt.
use openframetap.Prelude.{refl, List, some, [], ◌∷◌, ◌↔◌, ◌≤◌, ok, none, ◌≡◌}
use openframetap.Pairing.{
  waiting_status, timed_out, judge_approval, judge_status, new_attempt, subscribe,
  begin_authorized_attempt, pairing_status, device_approved, stop, stage2_sent, paired, stage1_sent,
  idle, events_of, Call, after, respond, new_machine, Machine,
}
use openframetap.Pairing.History.{after-Earned, Earned}
use openframetap.Pairing.Attempts.{respond-stop, pin_proposals-bounded, pin_proposals}
use openframetap.Bytes.{same_bytes}
use openframetap.Pairing.Responses.{Halted}

abbrev machine : Machine
machine = record {
  timeout = 15000;
  max_attempts = 2;
  attempts = 0;
  state = idle;
  last_error = none;
}

-- the newest call first
abbrev whole_pairing : List Call
whole_pairing =
    stage2_sent
    ∷ stage1_sent
    ∷ device_approved (1 ∷ [])
    ∷ pairing_status (0 ∷ 2 ∷ [])
    ∷ begin_authorized_attempt
    ∷ subscribe
    ∷ []

machine-new : new_machine 15000 2 ≡ ok machine
unfolding new_machine
machine-new = refl

whole_pairing-pairs : (after machine whole_pairing).state ≡ paired
unfolding after new_attempt judge_status judge_approval same_bytes
whole_pairing-pairs = refl

after-Earned_example : Earned machine (after machine whole_pairing).state whole_pairing
after-Earned_example = after-Earned 15000 2 machine whole_pairing machine-new

-- An attempt without any subscription, which is begun by a machine that has failed.
unsubscribed_attempt :
    (after machine (begin_authorized_attempt ∷ timed_out ∷ [])).state ≡ waiting_status
unfolding after respond new_attempt
unsubscribed_attempt = refl

pin_proposals-bounded_example :
    (pin_proposals (events_of machine whole_pairing) ≡ (after machine whole_pairing).attempts)
    × (pin_proposals (events_of machine whole_pairing) ≤ 2)
    × (2 ≤ 2)
pin_proposals-bounded_example = pin_proposals-bounded 15000 2 machine whole_pairing machine-new

respond-stop_example :
    ((respond machine stage1_sent).1.action ≡ stop ↔ Halted (respond machine stage1_sent).0.state)
    × ((respond machine stage1_sent).1.action ≡ stop
        → (respond machine stage1_sent).0.last_error ≡ some (respond machine stage1_sent).1.detail)
respond-stop_example = respond-stop machine stage1_sent
