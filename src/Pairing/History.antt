-- ===== src/Pairing/History.antt =====
-- pairing/state_machine.py: what must have been called, and in which order, for each state.
use openframetap.Prelude.{
  not, leb, ==_iff, ap, ℕ, ◌≡◌, refl, false, ◌||◌, List, [], ◌∷◌, ◌⊎◌, inl, inr, arith, ◌==◌, ltb,
  length, get_or, Bool-cases, ok,
}
use openframetap.Bytes.{same_bytes, same_bytes-eq}
use openframetap.Pairing.{
  PairingState, idle, subscribed, waiting_status, waiting_device_confirmation, ready_stage1_send,
  ready_stage2_send, paired, failed, Machine, Call, subscribe, begin_authorized_attempt,
  stage1_sent, stage2_sent, timed_out, disconnect, cancel, pairing_status, device_approved,
  fail_unexpected, new_machine, new_attempt, judge_status, judge_approval, on_subscribed,
  on_begin_attempt, on_pairing_status, on_device_approved, on_stage1_sent, on_stage2_sent, respond,
  after,
}

-- A call of the kind, with the earlier calls as required before it.
abbrev pub Then : (Call → Type 0) → (List Call → Type 0) → List Call → Type 0
Then kind before [] = ⊥
Then kind before (c ∷ earlier) = (kind c × before earlier) ⊎ Then kind before earlier

abbrev pub Is : Call → Call → Type 0
Is c d = d ≡ c

-- A status payload that begins with a zero and the value.
abbrev pub IsStatus : ℕ → Call → Type 0
IsStatus value c =
    (payload : List ℕ) × (c ≡ pairing_status payload)
    × (get_or payload 0 0 ≡ 0)
    × (get_or payload 1 0 ≡ value)

-- An attempt is begun right after the subscription, or by a machine that has failed.
abbrev pub Ready : Machine → List Call → Type 0
Ready m h = (h ≡ subscribe ∷ []) ⊎ ((after m h).state ≡ failed)

abbrev pub Attempted : Machine → List Call → Type 0
Attempted m = Then (Is begin_authorized_attempt) (Ready m)

abbrev pub Approved : Machine → List Call → Type 0
Approved m = Then (Is (device_approved (1 ∷ []))) (Then (IsStatus 2) (Attempted m))

-- The device said that it is paired already, or the whole exchange was gone through.
abbrev pub Completed : Machine → List Call → Type 0
Completed m h =
    Then (IsStatus 1) (Attempted m) h ⊎ Then (Is stage2_sent) (Then (Is stage1_sent) (Approved m)) h

-- What a state says of the calls that led to it.
abbrev pub Earned : Machine → PairingState → List Call → Type 0
Earned m idle h = h ≡ []
Earned m subscribed h = h ≡ subscribe ∷ []
Earned m waiting_status h = Attempted m h
Earned m waiting_device_confirmation h = Then (IsStatus 2) (Attempted m) h
Earned m ready_stage1_send h = Approved m h
Earned m ready_stage2_send h = Then (Is stage1_sent) (Approved m) h
Earned m paired h = Completed m h
Earned m _ h = Unit

-- `start` is the machine before any call, and `m` the one that answers the next.
module _ (start m : Machine) (h : List Call) where
  attempt-Earned :
      Ready start h → Earned start (new_attempt m).0.state (begin_authorized_attempt ∷ h)
  unfolding new_attempt
  attempt-Earned ready = elim (Bool-cases (leb m.max_attempts m.attempts)) [
    | inl e ↦ rw e tt
    | inr e ↦ rw e (inl (refl, ready))
  ]

  status-Earned :
      (payload : List ℕ)
      → Attempted start h
      → Earned start (judge_status m payload).0.state (pairing_status payload ∷ h)
  unfolding judge_status
  status-Earned payload e =
      elim (Bool-cases (ltb (length payload) 2 || not (get_or payload 0 0 == 0))) [
        | inl bad ↦ rw bad tt
        | inr good ↦ elim (Bool-cases (get_or payload 1 0 == 1)) [
          | inl one ↦
              rw (good, one)
                (inl (inl ((payload, refl, zero_first payload good, (==_iff _ _).0 one), e)))
          | inr other ↦ elim (Bool-cases (get_or payload 1 0 == 2)) [
            | inl two ↦
                rw (good, other, two)
                  (inl ((payload, refl, zero_first payload good, (==_iff _ _).0 two), e))
            | inr unknown ↦ rw (good, other, unknown) tt
          ]
        ]
      ]
    where
      zero_first :
          (p : List ℕ) → (ltb (length p) 2 || not (get_or p 0 0 == 0)) ≡ false → get_or p 0 0 ≡ 0
      zero_first p good = ground arith

  approval-Earned :
      (payload : List ℕ)
      → Then (IsStatus 2) (Attempted start) h
      → Earned start (judge_approval m payload).0.state (device_approved payload ∷ h)
  unfolding judge_approval
  approval-Earned payload e = elim (Bool-cases (same_bytes payload (1 ∷ []))) [
    | inl same ↦ rw same (inl (ap device_approved (same_bytes-eq payload (1 ∷ []) same), e))
    | inr other ↦ rw other tt
  ]

  subscribe-Earned :
      (s : PairingState)
      → Earned start s h
      → Earned start (on_subscribed m s).0.state (subscribe ∷ h)
  subscribe-Earned idle e = ap (λ t. subscribe ∷ t) e
  subscribe-Earned _ e = tt

  begin-Earned :
      (s : PairingState)
      → (after start h).state ≡ s
      → Earned start s h
      → Earned start (on_begin_attempt m s).0.state (begin_authorized_attempt ∷ h)
  begin-Earned subscribed same e = attempt-Earned (inl e)
  begin-Earned failed same e = attempt-Earned (inr same)
  begin-Earned _ same e = tt

  still_paired : {c : Call} → Completed start h → Completed start (c ∷ h)
  still_paired (inl e) = inl (inr e)
  still_paired (inr e) = inr (inr e)

  pairing_status-Earned :
      (payload : List ℕ) (s : PairingState)
      → m.state ≡ s
      → Earned start s h
      → Earned start (on_pairing_status m payload s).0.state (pairing_status payload ∷ h)
  pairing_status-Earned payload waiting_status same e = status-Earned payload e
  pairing_status-Earned payload waiting_device_confirmation same e = rw same (inr e)
  pairing_status-Earned payload ready_stage1_send same e = rw same (inr e)
  pairing_status-Earned payload ready_stage2_send same e = rw same (inr e)
  pairing_status-Earned payload paired same e = rw same (still_paired e)
  pairing_status-Earned payload _ same e = tt

  device_approved-Earned :
      (payload : List ℕ) (s : PairingState)
      → Earned start s h
      → Earned start (on_device_approved m payload s).0.state (device_approved payload ∷ h)
  device_approved-Earned payload waiting_device_confirmation e = approval-Earned payload e
  device_approved-Earned payload _ e = tt

  stage1-Earned :
      (s : PairingState)
      → Earned start s h
      → Earned start (on_stage1_sent m s).0.state (stage1_sent ∷ h)
  stage1-Earned ready_stage1_send e = inl (refl, e)
  stage1-Earned _ e = tt

  stage2-Earned :
      (s : PairingState)
      → Earned start s h
      → Earned start (on_stage2_sent m s).0.state (stage2_sent ∷ h)
  stage2-Earned ready_stage2_send e = inr (inl (refl, e))
  stage2-Earned _ e = tt

  responds :
      (c : Call)
      → (after start h).state ≡ m.state
      → Earned start m.state h
      → Earned start (respond m c).0.state (c ∷ h)
  unfolding respond
  responds subscribe same e = subscribe-Earned m.state e
  responds begin_authorized_attempt same e = begin-Earned m.state same e
  responds stage1_sent same e = stage1-Earned m.state e
  responds stage2_sent same e = stage2-Earned m.state e
  responds timed_out same e = tt
  responds disconnect same e = tt
  responds cancel same e = tt
  responds (pairing_status payload) same e = pairing_status-Earned payload m.state refl e
  responds (device_approved payload) same e = device_approved-Earned payload m.state e
  responds (fail_unexpected text) same e = tt

calls-Earned : (m : Machine) (h : List Call) → m.state ≡ idle → Earned m (after m h).state h
unfolding after
calls-Earned m [] e = rw e refl
calls-Earned m (c ∷ h) e = responds m (after m h) h c refl (calls-Earned m h e)

-- Whatever calls are made of a new machine, its state says which were made before it, in their order.
-- It is idle before any call, and subscribed after the subscription alone. The states of an exchange
-- are reached only behind an attempt, which was begun right after the subscription or by a machine
-- that had failed. Paired is reached only after such an attempt, and then by a status that reports
-- it or by a status that asks for approval, the approval, and both stages.
pub after-Earned :
    (timeout max_attempts : ℕ) (m : Machine) (h : List Call)
    → new_machine timeout max_attempts ≡ ok m
    → Earned m (after m h).state h
unfolding new_machine
after-Earned timeout max_attempts m h e = calls-Earned m h (started timeout max_attempts m e)
  where
    started : (t n : ℕ) (m : Machine) → new_machine t n ≡ ok m → m.state ≡ idle
    started t n m e = ground arith
