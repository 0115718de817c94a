-- ===== src/Safety/Sends.antt =====
-- control/safety.py: what is presented to the sink, frame by frame.
use openframetap.Floats.{Floats}
use openframetap.Gimbal.{ControlRate, validate_gimbal_control_frame}
use openframetap.Gimbal.Axes.{AxisProfile}
use openframetap.Safety.{
  policy_refused, build_failed, Cause, Controller, ControlState, Presented, Reason, SendError,
  Surroundings,
}
use openframetap.Safety.Machine.{send, present, after_sink, transition, frame_to_send}
use openframetap.Prelude.{
  All-imp, length-append, ◌+◌, arith, ◌∷◌, refl, err, bit_and, All-append, append_assoc, sym, ◌≤◌,
  length, inr, inl, ap, ◌∙◌, ℕ, ok, Result, Result-cases, Bool-cases, All, ◌≡◌, ◌++◌, [], List,
  Bool,
}
use openframetap.Bits.{bit_and_mask}

-- A frame that the policy of the profile accepts.
abbrev pub Accepted : {W : Type 0} → AxisProfile W → Bool → Presented → Type 0
Accepted profile live s =
    (rate : ControlRate) × (validate_gimbal_control_frame s.frame profile.base live ≡ ok rate)

-- What a call leaves: the setting is the same, the new frames are at most so many, and all
-- have the property.
pub record Extends {W : Type 0} (P : Presented → Type 0) (n : ℕ) (c c' : Controller W)
    : Type 0 where
  pub news : List Presented
  pub few : length news ≤ n
  pub presented : c'.presented ≡ news ++ c.presented
  pub all : All P news
  pub profile : c'.profile ≡ c.profile
  pub live : c'.live ≡ c.live
  pub config : c'.config ≡ c.config
  pub sequence : c.sequence ≤ 0xFFFF → c'.sequence ≤ 0xFFFF

-- The flags and the times that a call leaves as they are.
pub record Keeps {W : Type 0} (c c' : Controller W) : Type 0 where
  pub latched : c'.emergency_latched ≡ c.emergency_latched
  pub neutral : c'.neutral_required ≡ c.neutral_required

module _ {W : Type 0} where
  pub same-Extends : (P : Presented → Type 0) (n : ℕ) (c : Controller W) → Extends P n c c
  same-Extends P n c = record {
    news = [];
    few = omega arith;
    presented = refl;
    all = tt;
    profile = refl;
    live = refl;
    config = refl;
    sequence = λ h. h;
  }

  -- A weaker property, of more frames.
  pub imp-Extends :
      (P Q : Presented → Type 0) (n m : ℕ) (a b : Controller W)
      → n ≤ m
      → ((s : Presented) → P s → Q s)
      → Extends P n a b
      → Extends Q m a b
  imp-Extends P Q n m a b room h e = record {
    news = e.news;
    few = omega (arith, e.few, room);
    presented = e.presented;
    all = All-imp P Q h e.news e.all;
    profile = e.profile;
    live = e.live;
    config = e.config;
    sequence = e.sequence;
  }

  -- A controller that differs only in other fields.
  pub alike-Extends :
      (P : Presented → Type 0) (a b : Controller W)
      → b.presented ≡ a.presented
      → b.profile ≡ a.profile
      → b.live ≡ a.live
      → b.config ≡ a.config
      → b.sequence ≡ a.sequence
      → Extends P 0 a b
  alike-Extends P a b h profile live config sequence = record {
    news = [];
    few = omega arith;
    presented = h;
    all = tt;
    profile = profile;
    live = live;
    config = config;
    sequence = λ small. rw sequence small;
  }

  pub then-Extends :
      (P : Presented → Type 0) (n m k : ℕ) (a b c : Controller W)
      → n + m ≤ k
      → Extends P n a b
      → Extends P m b c
      → Extends P k a c
  then-Extends P n m k a b c room first second = record {
    news = second.news ++ first.news;
    few = omega (arith, length-append second.news first.news, first.few, second.few);
    presented =
        second.presented
        ∙ ap (λ t. second.news ++ t) first.presented
        ∙ sym (append_assoc second.news first.news a.presented);
    all = All-append P second.news first.news second.all first.all;
    profile = second.profile ∙ first.profile;
    live = second.live ∙ first.live;
    config = second.config ∙ first.config;
    sequence = λ h. second.sequence (first.sequence h);
  }

module _ {W : Type 0} ⦃f : Floats W⦄ (world : Surroundings) where
  pub transition-Extends :
      (P : Presented → Type 0) (c : Controller W) (s : ControlState) (cause : Cause)
      → Extends P 0 c (transition world c s cause)
  unfolding transition
  transition-Extends P c s cause = elim (Bool-cases c.reports) [
    | inl e ↦ simp e (record {
      news = [];
      few = omega arith;
      presented = refl;
      all = tt;
      profile = refl;
      live = refl;
      config = refl;
      sequence = λ h. h;
    })
    | inr e ↦ simp e (record {
      news = [];
      few = omega arith;
      presented = refl;
      all = tt;
      profile = refl;
      live = refl;
      config = refl;
      sequence = λ h. h;
    })
  ]

  pub state-transition :
      (c : Controller W) (s : ControlState) (cause : Cause) → (transition world c s cause).state ≡ s
  unfolding transition
  state-transition c s cause = elim (Bool-cases c.reports) [ inl e ↦ rw e | inr e ↦ rw e ]

  pub transition-Keeps :
      (c : Controller W) (s : ControlState) (cause : Cause) → Keeps c (transition world c s cause)
  unfolding transition
  transition-Keeps c s cause = elim (Bool-cases c.reports) [
    | inl e ↦ simp e (record { latched = refl; neutral = refl })
    | inr e ↦ simp e (record { latched = refl; neutral = refl })
  ]

  -- A call of `_send`: at most one frame, of this kind, that the policy accepts and that was built
  -- from these axes.
  module _ (c : Controller W) (is_zero : Bool) (reason : Reason) (yaw pitch : W) where
    abbrev pub Sent : Presented → Type 0
    Sent s =
        Accepted c.profile c.live s
        × (s.is_zero ≡ is_zero)
        × (s.reason ≡ reason)
        × (frame_to_send world c yaw pitch is_zero ≡ ok s.frame)

    -- What is known of the controller after a call of `_send`.
    pub record SendOutcome (r : Controller W × Result SendError (Unit {0})) : Type 0 where
      pub extends : Extends Sent 1 c r.0
      pub keeps : Keeps c r.0
      pub state : (r.0).state ≡ c.state

    quiet : (e : SendError) → SendOutcome (c, err e)
    quiet e = record {
      extends = same-Extends Sent 1 c;
      keeps = record { latched = refl; neutral = refl };
      state = refl;
    }

    -- the controller that calls the sink
    abbrev calling : List ℕ → Controller W
    calling frame = record c {
      sequence = bit_and (c.sequence + 1) 0xFFFF;
      calls = c.calls + 1;
      presented = record { frame = frame; is_zero = is_zero; reason = reason } ∷ c.presented;
    }

    called :
        (frame : List ℕ) (rate : ControlRate)
        → validate_gimbal_control_frame frame c.profile.base c.live ≡ ok rate
        → frame_to_send world c yaw pitch is_zero ≡ ok frame
        → SendOutcome (after_sink world (calling frame) is_zero (world.sink_fails c.calls))
    unfolding after_sink
    called frame rate accepted built =
        let news : List Presented =
          record { frame = frame; is_zero = is_zero; reason = reason } ∷ [] in
        let accept : All Sent news = (((rate, accepted), refl, refl, built), tt) in
        let word : bit_and (c.sequence + 1) 0xFFFF ≤ 0xFFFF =
          omega (arith, bit_and_mask 16 (c.sequence + 1)) in
        elim (Bool-cases (world.sink_fails c.calls)) [
          | inl fails ↦ simp fails (record {
            extends = record {
              news = news;
              few = omega arith;
              presented = refl;
              all = accept;
              profile = refl;
              live = refl;
              config = refl;
              sequence = λ h. word;
            };
            keeps = record { latched = refl; neutral = refl };
            state = refl;
          })
          | inr works ↦ simp works (record {
            extends = record {
              news = news;
              few = omega arith;
              presented = refl;
              all = accept;
              profile = refl;
              live = refl;
              config = refl;
              sequence = λ h. word;
            };
            keeps = record { latched = refl; neutral = refl };
            state = refl;
          })
        ]

    present-Outcome :
        (frame : List ℕ)
        → frame_to_send world c yaw pitch is_zero ≡ ok frame
        → SendOutcome (present world c is_zero reason frame)
    unfolding present
    present-Outcome frame built =
        elim (Result-cases (validate_gimbal_control_frame frame c.profile.base c.live)) [
          | inr (e, refused) ↦ rw (refused, present) (quiet (policy_refused e))
          | inl (rate, accepted) ↦ rw (accepted, present) (called frame rate accepted built)
        ]

    pub send-SendOutcome : SendOutcome (send world c yaw pitch is_zero reason)
    unfolding send
    send-SendOutcome = elim (Result-cases (frame_to_send world c yaw pitch is_zero)) [
      | inr (e, failed) ↦ rw (failed, send) (quiet (build_failed e))
      | inl (frame, built) ↦ rw (built, send) (present-Outcome frame built)
    ]
