-- ===== src/Safety/Stops.antt =====
-- control/safety.py: stopping the gimbal by frames of rate zero.
use openframetap.Floats.{pos, Floats, nought}
use openframetap.Gimbal.Axes.{build_axes_zero, AxisProfile}
use openframetap.Safety.{
  because, stopping, disabled, zero_sent, safety, zero_attempt_failed, zero_unconfirmed, SendError,
  Controller, ControlState, fault, Presented, Reason, Surroundings,
}
use openframetap.Safety.Machine.{
  stop_now, now_of, settled, send, transition, zero_attempts, zero_out,
}
use openframetap.Safety.Sends.{
  imp-Extends, alike-Extends, Accepted, Extends, Keeps, SendOutcome, send-SendOutcome,
  transition-Extends, state-transition, transition-Keeps, then-Extends, Sent,
}
use openframetap.Prelude.{
  ok, ◌⊎◌, none, refl, arith, zero, some, inr, inl, Result-cases, suc, Result, ◌∙◌, subst, ◌+◌,
  false, ◌≤◌, true, Bool, ◌≡◌, ℕ,
}
use openframetap.Safety.Machine.Tick.{goes_on, run_rounds}
use openframetap.Safety.Setup.{at_rest}
use openframetap.Gimbal.Zero.{build_axes_zero-HoldsStill, HoldsStill}

-- A frame that the policy accepts and that is presented as one of rate zero, as it was built.
abbrev pub BuiltZero : {W : Type 0} ⦃f : Floats W⦄ → AxisProfile W → Bool → Presented → Type 0
BuiltZero profile live s =
    Accepted profile live s
    × (s.is_zero ≡ true)
    × ((sequence : ℕ) × (build_axes_zero profile sequence ≡ ok s.frame))

-- A frame that the policy accepts, that is presented as one of rate zero, and that decodes to one.
abbrev pub ZeroFrame : {W : Type 0} → AxisProfile W → Bool → Presented → Type 0
ZeroFrame profile live s =
    Accepted profile live s × (s.is_zero ≡ true) × HoldsStill profile.base s.frame

pub BuiltZero-ZeroFrame :
    {W : Type 0} ⦃f : Floats W⦄ (profile : AxisProfile W) (live : Bool)
    → f.rounded_units nought profile.reference_speed_dps ≡ pos 0
    → (s : Presented) → BuiltZero profile live s
    → ZeroFrame profile live s
BuiltZero-ZeroFrame profile live no_units s (accepted, marked, (sequence, built)) =
    (accepted, marked, build_axes_zero-HoldsStill profile sequence s.frame no_units built)

-- What is known of an attempt to stop, of at most so many frames.
pub record Stopped {W : Type 0} (P : Presented → Type 0) (c : Controller W) (attempts : ℕ)
    (destination : ControlState) (r : Controller W × Bool) : Type 0 where
  pub extends : Extends P attempts c r.0
  pub keeps : Keeps c r.0
  pub done : r.1 ≡ true → (r.0).state ≡ destination
  pub failed : r.1 ≡ false → (r.0).state ≡ fault

module _ {W : Type 0} (P : Presented → Type 0) where
  -- What follows a step that leaves the flags as they were.
  pub after-Stopped :
      (a b : Controller W) (n m k : ℕ) (destination : ControlState) (r : Controller W × Bool)
      → n + m ≤ k
      → Extends P n a b
      → Keeps a b
      → Stopped P b m destination r
      → Stopped P a k destination r
  after-Stopped a b n m k destination r room first keeps s = record {
    extends = then-Extends P n m k a b (r.0) room first s.extends;
    keeps = record {
      latched = s.keeps.latched ∙ keeps.latched;
      neutral = s.keeps.neutral ∙ keeps.neutral;
    };
    done = s.done;
    failed = s.failed;
  }

module _ {W : Type 0} ⦃f : Floats W⦄ (world : Surroundings) (profile : AxisProfile W)
    (live : Bool) where
  abbrev Zero : Presented → Type 0
  Zero = BuiltZero profile live

  sent-Extends :
      (c : Controller W) (reason : Reason)
      → c.profile ≡ profile
      → c.live ≡ live
      → (r : Controller W × Result SendError (Unit {0}))
      → (o : SendOutcome world c true reason nought nought r) → Extends Zero 1 c r.0
  sent-Extends c reason p l r o =
      imp-Extends (Sent world c true reason nought nought) Zero 1 1 c (r.0) (omega arith)
        (λ s z. (
          subst (λ t. Accepted t live s) p (subst (λ t. Accepted c.profile t s) l (z.0)),
          z.1,
          (c.sequence, subst (λ t. build_axes_zero t c.sequence ≡ ok s.frame) p (z.3)),
        ))
        o.extends

  -- the loop gives up
  surrender :
      (c : Controller W) (destination : ControlState)
      → Stopped Zero c 0 destination (transition world c fault zero_unconfirmed, false)
  surrender c destination = record {
    extends = transition-Extends world Zero c fault zero_unconfirmed;
    keeps = transition-Keeps world c fault zero_unconfirmed;
    done = λ e. absurd (ground arith);
    failed = λ e. state-transition world c fault zero_unconfirmed;
  }

  settle :
      (c : Controller W) (reason : Reason) (destination : ControlState)
      → Stopped Zero c 0 destination (settled world c reason destination, true)
  settle c reason destination =
      let b : Controller W = record c {
        latest_input = at_rest safety (now_of world c);
        reads = c.reads + 1;
        active_since_ns = none;
      } in
      after-Stopped Zero c b 0 0 0 destination _ (omega arith)
        (alike-Extends Zero c b refl refl refl refl refl)
        (record { latched = refl; neutral = refl })
        (record {
          extends = transition-Extends world Zero b destination (zero_sent reason);
          keeps = transition-Keeps world b destination (zero_sent reason);
          done = λ e. state-transition world b destination (zero_sent reason);
          failed = λ e. absurd (ground arith);
        })

  attempts-Stopped :
      (n attempt : ℕ) (c : Controller W) (reason : Reason) (destination : ControlState)
      → c.profile ≡ profile
      → c.live ≡ live
      → Stopped Zero c n destination (zero_attempts world n attempt c reason destination)
  unfolding zero_attempts
  attempts-Stopped zero attempt c reason destination p l = surrender c destination
  attempts-Stopped (suc n) attempt c reason destination p l =
      let r = send world c nought nought true reason in
      let o = send-SendOutcome world c true reason nought nought in
      let first = sent-Extends c reason p l r o in
      elim (Result-cases (r.1)) [
        | inl (u, good) ↦
            rw (good, zero_attempts)
              (after-Stopped Zero c (r.0) 1 0 (suc n) destination _ (omega arith) first o.keeps
                (settle (r.0) reason destination))
        | inr (e, bad) ↦
            let b : Controller W = record (r.0) {
              fault_reason = some (zero_attempt_failed attempt e);
            } in
            rw (bad, zero_attempts)
              (after-Stopped Zero c b 1 n (suc n) destination _ (omega arith)
                (then-Extends Zero 1 0 1 c (r.0) b (omega arith) first
                  (alike-Extends Zero (r.0) b refl refl refl refl refl))
                (record { latched = o.keeps.latched; neutral = o.keeps.neutral })
                (attempts-Stopped n (attempt + 1) b reason destination (o.extends.profile ∙ p)
                  (o.extends.live ∙ l)))
      ]

module _ {W : Type 0} ⦃f : Floats W⦄ (world : Surroundings) (c : Controller W) where
  pub zero_out-Stopped :
      (reason : Reason) (destination : ControlState)
      → Stopped
          (BuiltZero c.profile c.live)
          c
          c.config.zero_retry_limit
          destination
          (zero_out world c reason destination)
  unfolding zero_out
  zero_out-Stopped reason destination =
      let n = c.config.zero_retry_limit in
      let b = transition world c stopping (because reason) in
      let first =
        transition-Extends world (BuiltZero c.profile c.live) c stopping (because reason) in
      after-Stopped (BuiltZero c.profile c.live) c b 0 n n destination _ (omega arith) first
        (transition-Keeps world c stopping (because reason))
        (attempts-Stopped world c.profile c.live n 1 b reason destination first.profile first.live)

-- The two states in which a stop ends.
ends :
    {s : ControlState} (b : Bool)
    → (b ≡ true → s ≡ disabled)
    → (b ≡ false → s ≡ fault)
    → (s ≡ disabled) ⊎ (s ≡ fault)
ends true h k = inl (h refl)
ends false h k = inr (k refl)

over : (s : ControlState) → (s ≡ disabled) ⊎ (s ≡ fault) → goes_on s ≡ false
over s (inl e) = rw e refl
over s (inr e) = rw e refl

module _ {W : Type 0} ⦃f : Floats W⦄ (world : Surroundings) (c : Controller W) where
  -- What an emergency stop leaves, with a property of the frames that it sends.
  pub record EmergencyOutcome (P : Presented → Type 0) (r : Controller W × Bool) : Type 0 where
    pub extends : Extends P c.config.zero_retry_limit c r.0
    pub latched : (r.0).emergency_latched ≡ true
    pub neutral : (r.0).neutral_required ≡ true
    pub done : r.1 ≡ true → (r.0).state ≡ disabled
    pub failed : r.1 ≡ false → (r.0).state ≡ fault
    -- the writer sends nothing, however often it goes round, until `arm`
    pub idle : (n : ℕ) → run_rounds world n r.0 ≡ r.0

  rests : (n : ℕ) (a : Controller W) → goes_on a.state ≡ false → run_rounds world n a ≡ a
  unfolding run_rounds
  rests zero a e = refl
  rests (suc n) a e = rw (e, run_rounds) refl

  pub stop_now-built :
      (reason : Reason) → EmergencyOutcome (BuiltZero c.profile c.live) (stop_now world c reason)
  unfolding stop_now
  stop_now-built reason =
      let b : Controller W = record c { emergency_latched = true; neutral_required = true } in
      let s = zero_out-Stopped world b reason disabled in
      let r = zero_out world b reason disabled in
      record {
        extends =
            then-Extends (BuiltZero c.profile c.live) 0 c.config.zero_retry_limit
              c.config.zero_retry_limit c b (r.0) (omega arith)
              (alike-Extends (BuiltZero c.profile c.live) c b refl refl refl refl refl) s.extends;
        latched = s.keeps.latched;
        neutral = s.keeps.neutral;
        done = s.done;
        failed = s.failed;
        idle = λ n. rests n (r.0) (over (r.0).state (ends (r.1) s.done s.failed));
      }

  -- If zero rounds to no units, an emergency stop sends at most the configured number of frames, each
  -- accepted by the policy and decoded to a payload of no pitch, no roll and no yaw. It latches, asks
  -- for a neutral input, and ends disabled when it reports success and in the fault state when it does
  -- not; the writer then leaves the controller as it is.
  pub stop_now-EmergencyOutcome :
      (reason : Reason)
      → f.rounded_units nought c.profile.reference_speed_dps ≡ pos 0
      → EmergencyOutcome (ZeroFrame c.profile c.live) (stop_now world c reason)
  stop_now-EmergencyOutcome reason no_units =
      let o = stop_now-built reason in
      let n = c.config.zero_retry_limit in
      record {
        extends =
            imp-Extends (BuiltZero c.profile c.live) (ZeroFrame c.profile c.live) n n c
              (stop_now world c reason).0 (omega arith)
              (BuiltZero-ZeroFrame c.profile c.live no_units) o.extends;
        latched = o.latched;
        neutral = o.neutral;
        done = o.done;
        failed = o.failed;
        idle = o.idle;
      }
