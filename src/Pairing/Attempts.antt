-- ===== src/Pairing/Attempts.antt =====
-- pairing/state_machine.py: how often a send may be proposed, and when the machine stops.
use openframetap.Prelude.{◌∙◌, sym, ℕ, ◌+◌, ◌≤◌, ◌≡◌, refl, List, [], ◌∷◌, arith, ok, ◌↔◌, some}
use openframetap.Pairing.{Machine, Call, new_machine, respond, after, stop, PairingEvent, events_of}
use openframetap.Pairing.Responses.{proposals, Halted, Counted, Stops, respond-Sound}

-- How often the events propose to send the pairing PIN.
abbrev pub pin_proposals : List PairingEvent → ℕ
pin_proposals [] = 0
pin_proposals (e ∷ rest) = proposals e.action + pin_proposals rest

calls-counted :
    (m : Machine) (h : List Call)
    → m.attempts ≡ 0
    → ((after m h).attempts ≡ pin_proposals (events_of m h))
      × ((after m h).max_attempts ≡ m.max_attempts)
      × ((after m h).attempts ≤ m.max_attempts)
unfolding after events_of
calls-counted m [] z = (z, refl, omega arith)
calls-counted m (c ∷ h) z =
    let (counted, same, bounded) = calls-counted m h z in
    let r : Counted (after m h) (respond (after m h) c) = (respond-Sound (after m h) c).0 in
    (
      omega (arith, r.attempts, counted),
      r.maximum ∙ same,
      omega (arith, r.bounded (omega (arith, bounded, same)), same),
    )

-- Whatever calls are made of a new machine: it proposes to send the pairing PIN as often as it
-- counts attempts, and never more often than the maximum it was made with, which is one or two.
pub pin_proposals-bounded :
    (timeout max_attempts : ℕ) (m : Machine) (h : List Call)
    → new_machine timeout max_attempts ≡ ok m
    → (pin_proposals (events_of m h) ≡ (after m h).attempts)
      × (pin_proposals (events_of m h) ≤ max_attempts)
      × (max_attempts ≤ 2)
unfolding new_machine
pin_proposals-bounded timeout max_attempts m h e =
    let (z, n, two) = started timeout max_attempts m e in
    let (counted, same, bounded) = calls-counted m h z in (sym counted, omega arith, two)
  where
    started :
        (t n : ℕ) (m : Machine)
        → new_machine t n ≡ ok m
        → (m.attempts ≡ 0) × (m.max_attempts ≡ n) × (n ≤ 2)
    started t n m e = ground arith

-- For every machine and call: the response says stop exactly if the machine is then failed,
-- cancelled or disconnected, and the machine then keeps the detail of the response as its error.
pub respond-stop :
    (m : Machine) (c : Call)
    → ((respond m c).1.action ≡ stop ↔ Halted (respond m c).0.state)
      × ((respond m c).1.action ≡ stop → (respond m c).0.last_error ≡ some (respond m c).1.detail)
respond-stop m c =
    let s : Stops (respond m c) = (respond-Sound m c).1 in ((s.halted, s.stopped), s.reason)
