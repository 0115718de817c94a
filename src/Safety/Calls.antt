-- ===== src/Safety/Calls.antt =====
-- control/safety.py: whatever is called, in any order.
use openframetap.Floats.{Floats}
use openframetap.Safety.{
  because, window_focus_lost, stopping, ble_disconnected, active, disabled, missing,
  prerequisites_confirmed, armed, healthy, Prerequisite, ControlError, Controller,
  ControlPrerequisites, ControlInput, ControlState, Presented, Reason, Surroundings,
}
use openframetap.Safety.Machine.{
  stop_from, disconnect_from, focus_lost, arm_from, kept_input, disconnect, stop, arm_with,
  stop_now, submit, arm, transition, zero_out,
}
use openframetap.Safety.Machine.Tick.{tick}
use openframetap.Safety.Sends.{
  imp-Extends, transition-Extends, then-Extends, alike-Extends, same-Extends, Accepted, Extends,
}
use openframetap.Safety.Stops.{BuiltZero, zero_out-Stopped, stop_now-built}
use openframetap.Safety.Ticks.{move_frame, zero_frame, tick-sorted, Ticked}
use openframetap.Prelude.{
  suc, subst, ◌≤◌, ◌*◌, ap, [], ℕ, length, refl, arith, inr, none, inl, false, err, ok,
  Result-cases, ◌∷◌, ◌+◌, Result, List,
}
use openframetap.Safety.Setup.{check_input}

-- The controller's methods, with their arguments.
pub data ControlCall (W : Type 0) : Type 0 where
  armed_with : ControlPrerequisites → ControlCall W
  submitted : ControlInput W → ControlCall W
  ticked : ControlCall W
  stopped_now stopped : Reason → ControlCall W
  link_lost unfocused : ControlCall W

module _ {W : Type 0} ⦃f : Floats W⦄ (world : Surroundings) where
  -- An `arm` that is refused leaves the controller as it is.
  abbrev after_arm : Controller W → Result ControlError (Controller W) → Controller W
  after_arm c (ok c') = c'
  after_arm c (err e) = c

  unfoldable pub call : ControlCall W → Controller W → Controller W
  unfolding arm submit tick stop_now stop disconnect focus_lost
  call (armed_with p) c = after_arm c (arm world c p)
  call (submitted i) c = (submit world c i).0
  call ticked c = tick world c
  call (stopped_now reason) c = (stop_now world c reason).0
  call (stopped reason) c = (stop world c reason).0
  call link_lost c = (disconnect world c).0
  call unfocused c = (focus_lost world c).0

  unfoldable pub calls : List (ControlCall W) → Controller W → Controller W
  unfolding call
  calls [] c = c
  calls (x ∷ xs) c = calls xs (call x c)

  submit-Extends :
      (P : Presented → Type 0) (c : Controller W) (i : ControlInput W)
      → Extends P 0 c (submit world c i).0
  unfolding submit
  submit-Extends P c i =
      let b : Controller W = record c { reads = c.reads + 1 } in
      elim (Result-cases (check_input (kept_input world c i))) [
        | inl (j, good) ↦ rw good (alike-Extends P c _ refl refl refl refl refl)
        | inr (e, bad) ↦ rw bad (alike-Extends P c _ refl refl refl refl refl)
      ]

  arm-Extends :
      (P : Presented → Type 0) (c : Controller W) (p : ControlPrerequisites)
      → Extends P 0 c (after_arm c (arm world c p))
  unfolding arm
  arm-Extends P c p = from c.state
    where
      with_prerequisites :
          (names : List Prerequisite) → Extends P 0 c (after_arm c (arm_with world c names))
      with_prerequisites (name ∷ names) = same-Extends P 0 c
      with_prerequisites [] =
          let b : Controller W = record c {
            emergency_latched = false;
            neutral_required = false;
            fault_reason = none;
            watchdog_state = healthy;
          } in
          then-Extends P 0 0 0 c b _ (omega arith) (alike-Extends P c b refl refl refl refl refl)
            (transition-Extends world P b armed prerequisites_confirmed)

      from : (s : ControlState) → Extends P 0 c (after_arm c (arm_from world c p s))
      from disabled = with_prerequisites (missing p)
      from ControlState.disconnected = with_prerequisites (missing p)
      from armed = same-Extends P 0 c
      from active = same-Extends P 0 c
      from stopping = same-Extends P 0 c
      from ControlState.fault = same-Extends P 0 c

  -- The frames that a controller with this setting may present.
  abbrev Good : Controller W → Presented → Type 0
  Good c = Accepted c.profile c.live

  stops-Extends :
      (c b : Controller W)
      → Extends (Good c) 0 c b
      → (reason : Reason) (destination : ControlState)
      → Extends (Good c) (c.config.zero_retry_limit + 1) c (zero_out world b reason destination).0
  stops-Extends c b e reason destination =
      let n = c.config.zero_retry_limit in
      let s = zero_out-Stopped world b reason destination in
      then-Extends (Good c) 0 n (n + 1) c b _ (omega arith) e (
        imp-Extends (BuiltZero b.profile b.live) (Good c) b.config.zero_retry_limit n b _
          (omega (arith, ap (λ t. t.zero_retry_limit) e.config))
          (λ t z.
            subst (λ q. Accepted q c.live t) e.profile
              (subst (λ q. Accepted b.profile q t) e.live (z.0)))
          s.extends)

  pub call-Extends :
      (x : ControlCall W) (c : Controller W)
      → Extends (Good c) (c.config.zero_retry_limit + 1) c (call x c)
  unfolding call
  call-Extends x c = by_call x
    where
      n : ℕ
      n = c.config.zero_retry_limit

      wider :
          (m : ℕ) (b : Controller W)
          → m ≤ n + 1
          → Extends (Good c) m c b
          → Extends (Good c) (n + 1) c b
      wider m b room e = imp-Extends (Good c) (Good c) m (n + 1) c b room (λ s h. h) e

      marked :
          Extends
            (Good c)
            (n + 1)
            c
            (transition world c ControlState.disconnected (because ble_disconnected))
      marked =
          wider 0 _ (omega arith) (
            transition-Extends world (Good c) c ControlState.disconnected
              (because ble_disconnected))

      link : (s : ControlState) → Extends (Good c) (n + 1) c (disconnect_from world c s).0
      link disabled = marked
      link ControlState.disconnected = marked
      link armed =
          stops-Extends c c (same-Extends (Good c) 0 c) ble_disconnected ControlState.disconnected
      link active =
          stops-Extends c c (same-Extends (Good c) 0 c) ble_disconnected ControlState.disconnected
      link stopping = marked
      link ControlState.fault = marked

      stopping_from :
          (r : Reason) (s : ControlState) → Extends (Good c) (n + 1) c (stop_from world c r s).0
      stopping_from r disabled = stops-Extends c c (same-Extends (Good c) 0 c) r disabled
      stopping_from r ControlState.disconnected = same-Extends (Good c) (n + 1) c
      stopping_from r armed = stops-Extends c c (same-Extends (Good c) 0 c) r disabled
      stopping_from r active = stops-Extends c c (same-Extends (Good c) 0 c) r disabled
      stopping_from r stopping = stops-Extends c c (same-Extends (Good c) 0 c) r disabled
      stopping_from r ControlState.fault = same-Extends (Good c) (n + 1) c

      emergency : (r : Reason) → Extends (Good c) (n + 1) c (stop_now world c r).0
      emergency r =
          imp-Extends (BuiltZero c.profile c.live) (Good c) n (n + 1) c _ (omega arith) (λ s z. z.0)
            (stop_now-built world c r).extends

      accepted : (s : Presented) → Ticked world c (Good c) s → Good c s
      accepted s (zero_frame z) = z
      accepted s (move_frame m p on) = m.0

      by_call : (x : ControlCall W) → Extends (Good c) (n + 1) c (call x c)
      by_call (armed_with p) = wider 0 _ (omega arith) (arm-Extends (Good c) c p)
      by_call (submitted i) = wider 0 _ (omega arith) (submit-Extends (Good c) c i)
      by_call ticked =
          imp-Extends (Ticked world c (Good c)) (Good c) (n + 1) (n + 1) c _ (omega arith) accepted
            (tick-sorted world c (Good c) (λ s z. z.0))
      by_call (stopped_now r) = emergency r
      by_call (stopped r) = stopping_from r c.state
      by_call link_lost = link c.state
      by_call unfocused = emergency window_focus_lost

  -- Whatever is called and in whatever order, each frame that the controller presents is accepted by
  -- the policy of its profile, there are at most the configured number of attempts and one more in a
  -- call, and the sequence number stays in 16 bits.
  pub calls-Extends :
      (xs : List (ControlCall W)) (c : Controller W)
      → Extends (Good c) (length xs * (c.config.zero_retry_limit + 1)) c (calls xs c)
  unfolding calls
  calls-Extends [] c = same-Extends (Good c) _ c
  calls-Extends (x ∷ xs) c =
      let b = call x c in
      let first = call-Extends x c in
      let n = c.config.zero_retry_limit + 1 in
      then-Extends (Good c) n (length xs * n) (suc (length xs) * n) c b _ (omega arith) first (
        imp-Extends (Good b) (Good c) (length xs * (b.config.zero_retry_limit + 1)) (length xs * n)
          b _ (rw first.config (omega arith))
          (λ t z.
            subst (λ q. Accepted q c.live t) first.profile
              (subst (λ q. Accepted b.profile q t) first.live z))
          (calls-Extends xs b))
