-- ===== src/StickControl/Pulse/Emits.antt =====
-- control/gimbal_controller.py: the frames of a pulse that move the gimbal.
use openframetap.Prelude.{
  ◌∷◌, ap, ◌∙◌, refl, inr, arith, ◌⊎◌, inl, ◌+◌, Bool-cases, ◌≤◌, Option, ◌≡◌, ℕ, false, none, some,
  zero, suc, ok, err,
}
use openframetap.StickControl.{
  mark_started, mark_sent, UdpController, UdpWorld, Step, fault, timed_out, UdpError, and_then,
  send_stick,
}
use openframetap.StickControl.Bursts.{repeated_add, repeated}
use openframetap.StickControl.Pulse.{is_over, emit_non_center}
use openframetap.StickProfile.{StickCommand, is_center}

-- What is known of sending so many frames that move the gimbal.
pub record Emitting (command : StickCommand) (n : ℕ) (c : UdpController) (r : Step) : Type 0 where
  pub at_most : (r.0).non_center_packets ≤ c.non_center_packets + n
  pub centers : (r.0).center_packets ≡ c.center_packets
  pub done : r.1 ≡ ok tt → (r.0).non_center_packets ≡ c.non_center_packets + n
  pub logged : r.1 ≡ ok tt → (r.0).sent ≡ repeated n command c.sent
  pub failed : (e : UdpError) → r.1 ≡ err e → (e ≡ timed_out) ⊎ ((r.0).state ≡ fault)

module _ (world : UdpWorld) (command : StickCommand) where
  -- a frame that the sink has taken
  abbrev taken : UdpController → UdpController
  taken c = record c {
    non_center_packets = c.non_center_packets + 1;
    last_valid_input_ns = some (world.clock c.reads);
    reads = c.reads + 1;
    calls = c.calls + 1;
    sent = command ∷ c.sent;
  }

  sent-Emitting :
      (c : UdpController) (o : Option ℕ)
      → Emitting command 1 c (mark_sent world (mark_started world o (taken c)), ok tt)
  sent-Emitting c none = record {
    at_most = omega arith;
    centers = refl;
    done = λ h. refl;
    logged = λ h. refl;
    failed = λ e h. absurd (cc h);
  }
  sent-Emitting c (some start) = record {
    at_most = omega arith;
    centers = refl;
    done = λ h. refl;
    logged = λ h. refl;
    failed = λ e h. absurd (cc h);
  }

module _ (world : UdpWorld) (command : StickCommand) (moves : is_center command ≡ false) where
  one-Emitting : (c : UdpController) → Emitting command 1 c (send_stick world command c)
  unfolding send_stick
  one-Emitting c = elim (Bool-cases (world.sink_fails c.calls)) [
    | inl bad ↦ simp bad (record {
      at_most = omega arith;
      centers = refl;
      done = λ h. absurd (cc h);
      logged = λ h. absurd (cc h);
      failed = λ e h. inr refl;
    })
    | inr good ↦ simp (good, moves) (sent-Emitting world command c c.non_center_started_ns)
  ]

  joined :
      (n : ℕ) (c : UdpController) (r : Step) (k : UdpController → Step)
      → Emitting command 1 c r
      → ((b : UdpController) → Emitting command n b (k b))
      → Emitting command (suc n) c (and_then r k)
  joined n c (b, ok u) k first second =
      let one_more : 1 + n ≡ suc n = omega arith in
      record {
        at_most = omega (arith, (second b).at_most, first.done refl);
        centers = (second b).centers ∙ first.centers;
        done = λ h. omega (arith, (second b).done h, first.done refl);
        logged = λ h.
            (second b).logged h
            ∙ ap (repeated n command) (first.logged refl)
            ∙ repeated_add n 1 command c.sent
            ∙ ap (λ k. repeated k command c.sent) one_more;
        failed = (second b).failed;
      }
  joined n c (b, err e) k first second = record {
    at_most = omega (arith, first.at_most);
    centers = first.centers;
    done = λ h. absurd (cc h);
    logged = λ h. absurd (cc h);
    failed = first.failed;
  }

  -- a reading of the clock first
  later :
      (n : ℕ) (c : UdpController) (r : Step)
      → Emitting command n (record c { reads = c.reads + 1 }) r
      → Emitting command n c r
  later n c r h = record {
    at_most = h.at_most;
    centers = h.centers;
    done = h.done;
    logged = h.logged;
    failed = h.failed;
  }

  pub emit-Emitting :
      (n started : ℕ) (c : UdpController)
      → Emitting command n c (emit_non_center world n command started c)
  unfolding emit_non_center
  emit-Emitting zero started c = record {
    at_most = omega arith;
    centers = refl;
    done = λ h. omega arith;
    logged = λ h. refl;
    failed = λ e h. absurd (cc h);
  }
  emit-Emitting (suc n) started c = elim (Bool-cases (world.interrupts c.calls)) [
    | inl struck ↦ simp struck (record {
      at_most = omega arith;
      centers = refl;
      done = λ h. absurd (cc h);
      logged = λ h. absurd (cc h);
      failed = λ e h. inl cc;
    })
    | inr free ↦ elim (Bool-cases (is_over world c started)) [
      | inl over ↦
          simp (free, over)
            (record {
              at_most = omega arith;
              centers = refl;
              done = λ h. absurd (cc h);
              logged = λ h. absurd (cc h);
              failed = λ e h. inl cc;
            })
      | inr within ↦
          simp (free, within)
            (later (suc n) c _ (
              joined n (record c { reads = c.reads + 1 }) _ _
                (one-Emitting (record c { reads = c.reads + 1 })) (λ b. emit-Emitting n started b)))
    ]
  ]
