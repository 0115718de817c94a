-- ===== src/StickControl/Bursts.antt =====
-- control/gimbal_controller.py: what the bursts of centers do.
use openframetap.Prelude.{
  ◌∷◌, sym, List, ap, ◌≤◌, ◌∙◌, refl, inr, ◌≡◌, ◌+◌, inl, arith, ℕ, Bool-cases, true, zero, suc, ok,
  err,
}
use openframetap.StickControl.{
  centered, disabled, UdpController, UdpWorld, Step, WifiGimbalState, fault, UdpError, and_then,
  send_stick, send_times, center_burst, center_twice, enter, settle_center, emergency_stop_udp,
  stopping,
}
use openframetap.StickProfile.{StickCommand, center_stick_command}

-- A command so many times, before what was sent earlier.
abbrev pub repeated : ℕ → StickCommand → List StickCommand → List StickCommand
repeated zero command earlier = earlier
repeated (suc n) command earlier = command ∷ repeated n command earlier

pub repeated_add :
    (m n : ℕ) (command : StickCommand) (earlier : List StickCommand)
    → repeated m command (repeated n command earlier) ≡ repeated (n + m) command earlier
repeated_add zero n command earlier =
    let none_more : n ≡ n + 0 = omega arith in ap (λ k. repeated k command earlier) none_more
repeated_add (suc m) n command earlier =
    let one_more : suc (n + m) ≡ n + suc m = omega arith in
    ap (λ l. command ∷ l) (repeated_add m n command earlier)
    ∙ ap (λ k. repeated k command earlier) one_more

-- What is known of a method that sends centers, so many of them if it succeeds.
pub record Centering (n : ℕ) (c : UdpController) (r : Step) : Type 0 where
  pub still : (r.0).non_center_packets ≡ c.non_center_packets
  pub triggered : (r.0).emergency_stop_triggered ≡ c.emergency_stop_triggered
  pub done : r.1 ≡ ok tt → (r.0).center_packets ≡ c.center_packets + n
  pub logged : r.1 ≡ ok tt → (r.0).sent ≡ repeated n center_stick_command c.sent
  pub failed : (e : UdpError) → r.1 ≡ err e → (r.0).state ≡ fault

-- One method after another, with what is known of the state between them.
pub then-Centering :
    (n m t : ℕ) (c : UdpController) (r : Step) (k : UdpController → Step)
    → t ≡ n + m
    → Centering n c r
    → ((b : UdpController) → Centering m b (k b))
    → Centering t c (and_then r k)
then-Centering n m t c (b, ok u) k sum first second = record {
  still = (second b).still ∙ first.still;
  triggered = (second b).triggered ∙ first.triggered;
  done = λ h. omega (arith, (second b).done h, first.done refl, sum);
  logged = λ h.
      (second b).logged h
      ∙ ap (repeated m center_stick_command) (first.logged refl)
      ∙ repeated_add m n center_stick_command c.sent
      ∙ ap (λ k. repeated k center_stick_command c.sent) (sym sum);
  failed = (second b).failed;
}
then-Centering n m t c (b, err e) k sum first second = record {
  still = first.still;
  triggered = first.triggered;
  done = λ h. absurd (cc h);
  logged = λ h. absurd (cc h);
  failed = first.failed;
}

module _ (world : UdpWorld) where
  send_center-Centering :
      (c : UdpController) → Centering 1 c (send_stick world center_stick_command c)
  unfolding send_stick
  send_center-Centering c = elim (Bool-cases (world.sink_fails c.calls)) [
    | inl bad ↦ simp bad (record {
      still = refl;
      triggered = refl;
      done = λ h. absurd (cc h);
      logged = λ h. absurd (cc h);
      failed = λ e h. refl;
    })
    | inr good ↦ simp good (record {
      still = refl;
      triggered = refl;
      done = λ h. refl;
      logged = λ h. refl;
      failed = λ e h. absurd (cc h);
    })
  ]

  send_times-Centering :
      (n : ℕ) (c : UdpController) → Centering n c (send_times world n center_stick_command c)
  unfolding send_times
  send_times-Centering zero c = record {
    still = refl;
    triggered = refl;
    done = λ h. omega arith;
    logged = λ h. refl;
    failed = λ e h. absurd (cc h);
  }
  send_times-Centering (suc n) c =
      then-Centering 1 n (suc n) c (send_stick world center_stick_command c) _ (omega arith)
        (send_center-Centering c) (send_times-Centering n)

  -- A change of the state only.
  enter-Centering :
      (n : ℕ) (s : WifiGimbalState) (c : UdpController) (r : Step)
      → Centering n (enter world s c) r
      → Centering n c r
  enter-Centering n s c r h = record {
    still = h.still;
    triggered = h.triggered;
    done = h.done;
    logged = h.logged;
    failed = h.failed;
  }

  settle-Centering : (c : UdpController) → Centering 0 c (settle_center world c)
  settle-Centering c = record {
    still = refl;
    triggered = refl;
    done = λ h. omega arith;
    logged = λ h. refl;
    failed = λ e h. absurd (cc h);
  }

  burst-Centering : (n : ℕ) (c : UdpController) → 1 ≤ n → Centering n c (center_burst world n c)
  unfolding center_burst
  burst-Centering zero c h = absurd (omega arith)
  burst-Centering (suc n) c h = enter-Centering (suc n) stopping c _ (
      then-Centering (suc n) 0 (suc n) (enter world stopping c)
        (send_times world (suc n) center_stick_command (enter world stopping c))
        (settle_center world) (omega arith) (send_times-Centering (suc n) (enter world stopping c))
        settle-Centering)

  pub twice-Centering : (c : UdpController) → Centering 6 c (center_twice world c)
  unfolding center_twice
  twice-Centering c =
      then-Centering 5 1 6 c (center_burst world 5 c) (λ b. center_burst world 1 b) refl
        (burst-Centering 5 c (omega arith)) (λ b. burst-Centering 1 b (omega arith))

  -- What follows a method that succeeds decides the state.
  and_then-state :
      (s : WifiGimbalState) (r : Step) (k : UdpController → Step)
      → ((b : UdpController) → (k b).1 ≡ ok tt → (k b).0.state ≡ s)
      → (and_then r k).1 ≡ ok tt
      → (and_then r k).0.state ≡ s
  and_then-state s (b, ok u) k each h = each b h
  and_then-state s (b, err e) k each h = absurd (cc h)

  burst-centered :
      (n : ℕ) (c : UdpController)
      → (center_burst world n c).1 ≡ ok tt
      → (center_burst world n c).0.state ≡ centered
  unfolding center_burst
  burst-centered zero c h = absurd (cc h)
  burst-centered (suc n) c h =
      and_then-state centered
        (send_times world (suc n) center_stick_command (enter world stopping c))
        (settle_center world) (λ b e. refl) h

  pub twice-centered :
      (c : UdpController)
      → (center_twice world c).1 ≡ ok tt
      → (center_twice world c).0.state ≡ centered
  unfolding center_twice
  twice-centered c h =
      and_then-state centered (center_burst world 5 c) (λ b. center_burst world 1 b)
        (burst-centered 1) h

  -- What an emergency stop leaves.
  pub record EmergencyCentered (c : UdpController) (r : Step) : Type 0 where
    pub still : (r.0).non_center_packets ≡ c.non_center_packets
    pub triggered : (r.0).emergency_stop_triggered ≡ true
    pub done :
        r.1 ≡ ok tt → ((r.0).state ≡ disabled) × ((r.0).center_packets ≡ c.center_packets + 6)
    pub failed : (e : UdpError) → r.1 ≡ err e → (r.0).state ≡ fault

  -- An emergency stop sends no packet that moves the gimbal. If it succeeds, it has sent six centers and
  -- the controller is disabled; if it raises, the controller is in the fault state.
  pub emergency_stop-EmergencyCentered :
      (c : UdpController) → EmergencyCentered c (emergency_stop_udp world c)
  unfolding emergency_stop_udp
  emergency_stop-EmergencyCentered c =
      let b : UdpController = record c { emergency_stop_triggered = true } in
      ended (center_twice world b) (twice-Centering b)
    where
      ended :
          (r : Step)
          → Centering 6 (record c { emergency_stop_triggered = true }) r
          → EmergencyCentered c (and_then r (λ c'. (enter world disabled c', ok tt)))
      ended (a, ok u) h = record {
        still = h.still;
        triggered = h.triggered;
        done = λ k. (refl, h.done refl);
        failed = λ e k. absurd (cc k);
      }
      ended (a, err e) h = record {
        still = h.still;
        triggered = h.triggered;
        done = λ k. absurd (cc k);
        failed = h.failed;
      }
