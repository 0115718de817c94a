-- ===== src/Safety/Ticks.antt =====
-- control/safety.py: what a tick of the writer sends.
use openframetap.Floats.{Floats}
use openframetap.Gimbal.Axes.{AxisProfile}
use openframetap.Safety.{
  stopping, disabled, armed, active, Controller, ControlState, fault, Presented, Surroundings,
}
use openframetap.Safety.Machine.{now_of}
use openframetap.Safety.Machine.Tick.{tick_from, goes_on, tick, tick_running}
use openframetap.Safety.Sends.{same-Extends, alike-Extends, then-Extends, Extends}
use openframetap.Safety.Stops.{BuiltZero}
use openframetap.Prelude.{true, refl, ◌+◌, arith, ap, ◌≡◌, ℕ, Bool}
use openframetap.Safety.Moves.{Setting, still, running-Extends, Permitted, MovingFrame}

module _ {W : Type 0} ⦃f : Floats W⦄ (world : Surroundings) (profile : AxisProfile W) (live : Bool)
    (limit : ℕ) (P : Presented → Type 0)
    (zero_ok : (s : Presented) → BuiltZero profile live s → P s) where
  -- Under a condition, a frame that moves has the property.
  abbrev Move : Controller W → Type 0 → Type 0
  Move c Q = Q → (s : Presented) → MovingFrame profile live c.latest_input s → P s

  -- What a tick does, with the time that it reads.
  tick-Extends :
      (c : Controller W)
      → Setting profile live limit c
      → Move c (Permitted c (now_of world c) × (goes_on c.state ≡ true))
      → Extends P (limit + 1) c (tick world c)
  unfolding tick
  tick-Extends c g move = from c.state refl
    where
      running :
          goes_on c.state ≡ true
          → Extends P
              (limit + 1)
              c
              (tick_running world (record c { reads = c.reads + 1 }) (now_of world c))
      running on =
          let b : Controller W = record c { reads = c.reads + 1 } in
          let e = alike-Extends P c b refl refl refl refl refl in
          then-Extends P 0 (limit + 1) (limit + 1) c b _ (omega arith) e (
            running-Extends world profile live limit P zero_ok b (now_of world c)
              (still world profile live limit P zero_ok 0 c b e g)
              (λ p. move (
                record {
                  fresh = p.fresh;
                  wanted = p.wanted;
                  released = p.released;
                  brief = p.brief;
                  paced = p.paced;
                },
                on,
              )))

      from : (s : ControlState) → c.state ≡ s → Extends P (limit + 1) c (tick_from world c s)
      from disabled e = same-Extends P (limit + 1) c
      from armed e = running (ap goes_on e)
      from active e = running (ap goes_on e)
      from stopping e = same-Extends P (limit + 1) c
      from fault e = same-Extends P (limit + 1) c
      from ControlState.disconnected e = same-Extends P (limit + 1) c

-- What a tick of the writer presents: frames of rate zero, in one of these senses, and, where that is
-- permitted, one that moves the gimbal.
module _ {W : Type 0} ⦃f : Floats W⦄ (world : Surroundings) (c : Controller W) where
  pub data Ticked (Still : Presented → Type 0) (s : Presented) : Type 0 where
    zero_frame : Still s → Ticked Still s
    move_frame :
        MovingFrame c.profile c.live c.latest_input s
        → Permitted c (now_of world c)
        → goes_on c.state ≡ true
        → Ticked Still s

  -- Whatever holds of the frames that are built for rate zero.
  pub tick-sorted :
      (Still : Presented → Type 0)
      → ((s : Presented) → BuiltZero c.profile c.live s → Still s)
      → Extends (Ticked Still) (c.config.zero_retry_limit + 1) c (tick world c)
  tick-sorted Still still_ok =
      tick-Extends world c.profile c.live c.config.zero_retry_limit (Ticked Still)
        (λ s z. zero_frame (still_ok s z)) c
        (record { profile_kept = refl; live_kept = refl; limit_kept = refl })
        (λ p s m. move_frame m (p.0) (p.1))
