-- ===== src/Safety/Moves.antt =====
-- control/safety.py: when the writer may send a frame that moves the gimbal.
use openframetap.Floats.{Floats}
use openframetap.Gimbal.Axes.{build_axes_frame, build_axes_zero, AxisProfile}
use openframetap.Safety.{
  ControlInput, watchdog_timeout, maximum_movement_duration, input_active, armed, input_released,
  healthy, expired, send_failure_after_zero, send_failure, nonzero_send_failed, nonzero_sent,
  active, SendError, Controller, ControlState, fault, Presented, Reason, Surroundings,
}
use openframetap.Safety.Machine.{send, transition, zero_out}
use openframetap.Safety.Machine.Tick.{
  too_soon, is_stale, at_zero, tick_running, tick_moving, tick_healthy, tick_due, is_active,
  after_move,
}
use openframetap.Safety.Sends.{
  Sent, send-SendOutcome, same-Extends, alike-Extends, transition-Extends, imp-Extends,
  then-Extends, Accepted, Extends,
}
use openframetap.Safety.Stops.{zero_out-Stopped, BuiltZero}
use openframetap.Prelude.{
  none, ◌-◌, ◌&&◌, ◌*◌, leb, true, Option, refl, some, err, inr, inl, Bool-cases, ok, ◌+◌, arith,
  ap, ◌∙◌, subst, false, Result, ◌≡◌, ℕ, Bool,
}

-- A frame that the policy accepts, that is presented as one that moves, and that was built from the
-- axes of an input.
abbrev pub MovingFrame :
    {W : Type 0} ⦃f : Floats W⦄ → AxisProfile W → Bool → ControlInput W → Presented → Type 0
MovingFrame profile live i s =
    Accepted profile live s
    × (s.is_zero ≡ false)
    × ((sequence : ℕ) × (build_axes_frame profile sequence i.yaw i.pitch true false ≡ ok s.frame))

-- What the calls within a tick leave as it is.
pub record Setting {W : Type 0} (profile : AxisProfile W) (live : Bool) (limit : ℕ)
    (c : Controller W) : Type 0 where
  pub profile_kept : c.profile ≡ profile
  pub live_kept : c.live ≡ live
  pub limit_kept : c.config.zero_retry_limit ≡ limit

module _ {W : Type 0} ⦃f : Floats W⦄ where
  -- the test of the maximum duration of a movement
  abbrev pub lasts : Controller W → ℕ → Option ℕ → Bool
  lasts c now none = false
  lasts c now (some since) = leb (c.config.maximum_movement_ms * 1000000) (now - since)

  -- What holds, at this time, when a frame that moves is sent.
  pub record Permitted (c : Controller W) (now : ℕ) : Type 0 where
    pub fresh : is_active c.state ≡ true → is_stale c now c.last_input_ns ≡ false
    pub wanted : at_zero c ≡ false
    pub released : c.neutral_required ≡ false
    pub brief : lasts c now c.active_since_ns ≡ false
    pub paced : too_soon c now c.last_send_ns ≡ false

second_fails : {a b : Bool} → (a && b) ≡ false → a ≡ true → b ≡ false
second_fails h e = ground arith

module _ {W : Type 0} ⦃f : Floats W⦄ (world : Surroundings) (profile : AxisProfile W) (live : Bool)
    (limit : ℕ) (P : Presented → Type 0)
    (zero_ok : (s : Presented) → BuiltZero profile live s → P s) where
  accept :
      (c : Controller W)
      → Setting profile live limit c
      → (s : Presented) → Accepted c.profile c.live s
      → Accepted profile live s
  accept c g s a =
      subst (λ t. Accepted t live s) g.profile_kept
        (subst (λ t. Accepted c.profile t s) g.live_kept a)

  pub still :
      (n : ℕ) (a b : Controller W)
      → Extends P n a b
      → Setting profile live limit a
      → Setting profile live limit b
  still n a b e g = record {
    profile_kept = e.profile ∙ g.profile_kept;
    live_kept = e.live ∙ g.live_kept;
    limit_kept = ap (λ t. t.zero_retry_limit) e.config ∙ g.limit_kept;
  }

  zeros-Extends :
      (b : Controller W)
      → Setting profile live limit b
      → (reason : Reason) (destination : ControlState)
      → Extends P limit b (zero_out world b reason destination).0
  zeros-Extends b g reason destination =
      let s = zero_out-Stopped world b reason destination in
      imp-Extends (BuiltZero b.profile b.live) P b.config.zero_retry_limit limit b _
        (omega (arith, g.limit_kept))
        (λ t (accepted, marked, (n, built)). zero_ok t (
          accept b g t accepted,
          marked,
          (n, subst (λ q. build_axes_zero q n ≡ ok t.frame) g.profile_kept built),
        ))
        s.extends

  -- a controller with other fields changed, and then a stop
  stops :
      (a b : Controller W)
      → Extends P 0 a b
      → Setting profile live limit a
      → (reason : Reason) (destination : ControlState)
      → Extends P limit a (zero_out world b reason destination).0
  stops a b e g reason destination =
      then-Extends P 0 limit limit a b _ (omega arith) e
        (zeros-Extends b (still 0 a b e g) reason destination)

  after_move-Extends :
      (c : Controller W) (r : Controller W × Result SendError (Unit {0}))
      → Extends P 1 c r.0
      → Setting profile live limit c
      → Extends P (limit + 1) c (after_move world r)
  unfolding after_move
  after_move-Extends c (a, ok u) e g = elim (Bool-cases (is_active a.state)) [
    | inl on ↦ rw on (imp-Extends P P 1 (limit + 1) c a (omega arith) (λ s h. h) e)
    | inr off ↦ rw off (
        then-Extends P 1 0 (limit + 1) c a (transition world a active nonzero_sent) (omega arith) e
          (transition-Extends world P a active nonzero_sent))
  ]
  after_move-Extends c (a, err x) e g =
      let b : Controller W = record a { fault_reason = some (nonzero_send_failed x) } in
      let r = zero_out world b send_failure fault in
      let t = transition world (r.0) fault send_failure_after_zero in
      let first = stops a b (alike-Extends P a b refl refl refl refl refl) (still 1 c a e g) in
      elim (Bool-cases (r.1)) [
        | inl done ↦ rw done (
            then-Extends P 1 limit (limit + 1) c a t (omega arith) e (
              then-Extends P limit 0 limit a (r.0) t (omega arith) (first send_failure fault)
                (transition-Extends world P (r.0) fault send_failure_after_zero)))
        | inr undone ↦ rw undone (
            then-Extends P 1 limit (limit + 1) c a (r.0) (omega arith) e (first send_failure fault))
      ]

  -- Under a condition, a frame that moves has the property.
  abbrev Move : Controller W → Type 0 → Type 0
  Move c Q = Q → (s : Presented) → MovingFrame profile live c.latest_input s → P s

  due-Extends :
      (c : Controller W) (now : ℕ)
      → Setting profile live limit c
      → Move c (too_soon c now c.last_send_ns ≡ false)
      → Extends P (limit + 1) c (tick_due world c now)
  unfolding tick_due
  due-Extends c now g move = elim (Bool-cases (too_soon c now c.last_send_ns)) [
    | inl soon ↦ rw soon (same-Extends P (limit + 1) c)
    | inr due ↦
        let yaw = c.latest_input.yaw in
        let pitch = c.latest_input.pitch in
        let r = send world c yaw pitch false input_active in
        let o = send-SendOutcome world c false input_active yaw pitch in
        rw due (
          after_move-Extends c r
            (imp-Extends (Sent world c false input_active yaw pitch) P 1 1 c (r.0) (omega arith)
              (λ s z. move due s (
                accept c g s (z.0),
                z.1,
                (
                  c.sequence,
                  subst (λ q. build_axes_frame q c.sequence yaw pitch true false ≡ ok s.frame)
                      g.profile_kept (z.3),
                ),
              ))
              o.extends)
            g)
  ]

  moving-Extends :
      (c : Controller W) (now : ℕ) (since : Option ℕ)
      → Setting profile live limit c
      → Move c ((lasts c now since ≡ false) × (too_soon c now c.last_send_ns ≡ false))
      → Extends P (limit + 1) c (tick_moving world c now since)
  unfolding tick_moving
  moving-Extends c now none g move =
      let b : Controller W = record c { active_since_ns = some now } in
      let e = alike-Extends P c b refl refl refl refl refl in
      then-Extends P 0 (limit + 1) (limit + 1) c b _ (omega arith) e
        (due-Extends b now (still 0 c b e g) (λ h. move (refl, h)))
  moving-Extends c now (some since) g move =
      let b : Controller W = record c { neutral_required = true } in
      elim (Bool-cases (leb (c.config.maximum_movement_ms * 1000000) (now - since))) [
        | inl long ↦ rw long (
            imp-Extends P P limit (limit + 1) c _ (omega arith) (λ s h. h)
              (stops c b (alike-Extends P c b refl refl refl refl refl) g maximum_movement_duration
                armed))
        | inr short ↦ rw short (due-Extends c now g (λ h. move (short, h)))
      ]

  healthy-Extends :
      (c : Controller W) (now : ℕ)
      → Setting profile live limit c
      → Move c (
          (at_zero c ≡ false)
          × (c.neutral_required ≡ false)
          × (lasts c now c.active_since_ns ≡ false)
          × (too_soon c now c.last_send_ns ≡ false))
      → Extends P (limit + 1) c (tick_healthy world c now)
  unfolding tick_healthy
  healthy-Extends c now g move = elim (Bool-cases (at_zero c)) [
    | inl zero ↦ elim (Bool-cases (is_active c.state)) [
      | inl on ↦
          rw (zero, on)
            (imp-Extends P P limit (limit + 1) c _ (omega arith) (λ s h. h)
              (zeros-Extends c g input_released armed))
      | inr off ↦ rw (zero, off) (same-Extends P (limit + 1) c)
    ]
    | inr moves ↦ elim (Bool-cases (c.neutral_required)) [
      | inl neutral ↦ simp (moves, neutral) (same-Extends P (limit + 1) c)
      | inr ready ↦
          simp (moves, ready)
            (moving-Extends c now c.active_since_ns g (λ h. move (moves, ready, h.0, h.1)))
    ]
  ]

  pub running-Extends :
      (c : Controller W) (now : ℕ)
      → Setting profile live limit c
      → Move c (Permitted c now)
      → Extends P (limit + 1) c (tick_running world c now)
  unfolding tick_running
  running-Extends c now g move =
      let b : Controller W = record c { watchdog_state = expired } in
      let h : Controller W = record c { watchdog_state = healthy } in
      let e = alike-Extends P c h refl refl refl refl refl in
      elim (Bool-cases (is_active c.state && is_stale c now c.last_input_ns)) [
        | inl stale ↦ rw stale (
            imp-Extends P P limit (limit + 1) c _ (omega arith) (λ s h. h)
              (stops c b (alike-Extends P c b refl refl refl refl refl) g watchdog_timeout armed))
        | inr fresh ↦ rw fresh (
            then-Extends P 0 (limit + 1) (limit + 1) c h _ (omega arith) e (
              healthy-Extends h now (still 0 c h e g) (λ p. move (record {
                fresh = λ on. second_fails fresh on;
                wanted = p.0;
                released = p.1;
                brief = p.2;
                paced = p.3;
              }))))
      ]
