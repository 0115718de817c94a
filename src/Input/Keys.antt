-- ===== src/Input/Keys.antt =====
-- app/input.py: what the keyboard reads after any keys are the keys that are held.
use openframetap.Prelude.{
  ◌⊎◌, ℕ, Bool, true, false, List, [], ◌∷◌, ◌≡◌, refl, ap, ap₂, ◌∙◌, Bool-cases, inl, inr,
  if◌then◌else◌, not, ◌&&◌, ◌||◌, ok, subst, subst⁻¹,
}
use openframetap.Floats.{Floats, nought, within}
use openframetap.Bytes.{same_bytes, same_bytes-eq}
use openframetap.Texts.{text, is_in}
use openframetap.Safety.{ControlInput, keyboard}
use openframetap.Safety.Setup.{check_input, at_rest}
use openframetap.Input.{
  press, Keyboard, new_keyboard, key_down, key_up, reset_keys, current_keys, keyed_axis,
  keyed_pitch, add_key, discard_key, meets, stop_keys, exit_keys, yaw_positive, yaw_negative,
  pitch_positive, pitch_negative,
}

is_in-add :
    (q key : List ℕ) (keys : List (List ℕ))
    → is_in q (add_key key keys) ≡ (same_bytes q key || is_in q keys)
is_in-add q key keys = elim (Bool-cases (is_in key keys)) [
  | inr e ↦ rw e refl
  | inl e ↦ rw e (elim (Bool-cases (same_bytes q key)) [
    | inr d ↦ rw d refl
    | inl d ↦ rw d (subst⁻¹ (λ k. is_in k keys ≡ true) (same_bytes-eq q key d) e)
  ])
]

is_in-discard :
    (q key : List ℕ) (keys : List (List ℕ))
    → is_in q (discard_key key keys) ≡ (not (same_bytes key q) && is_in q keys)
is_in-discard q key [] = elim (Bool-cases (same_bytes key q)) [
  | inl e ↦ rw e refl
  | inr e ↦ rw e refl
]
is_in-discard q key (k ∷ keys) = elim (Bool-cases (same_bytes key k)) [
  | inl e ↦ rw (e, is_in-discard q key keys) (gone (Bool-cases (same_bytes q k)) e)
  | inr e ↦ rw (e, is_in-discard q key keys) (stays e (Bool-cases (same_bytes q k)))
]
  where
    gone :
        (b : (same_bytes q k ≡ true) ⊎ (same_bytes q k ≡ false))
        → same_bytes key k ≡ true
        → (not (same_bytes key q) && is_in q keys)
          ≡ (not (same_bytes key q) && (same_bytes q k || is_in q keys))
    gone (inr d) e = rw d refl
    gone (inl d) e =
        let here : same_bytes key q ≡ true =
          subst⁻¹ (λ t. same_bytes key t ≡ true) (same_bytes-eq q k d) e in
        rw here refl

    stays :
        same_bytes key k ≡ false
        → (b : (same_bytes q k ≡ true) ⊎ (same_bytes q k ≡ false))
        → (same_bytes q k || not (same_bytes key q) && is_in q keys)
          ≡ (not (same_bytes key q) && (same_bytes q k || is_in q keys))
    stays e (inr d) = rw d refl
    stays e (inl d) =
        let away : same_bytes key q ≡ false =
          subst⁻¹ (λ t. same_bytes key t ≡ false) (same_bytes-eq q k d) e in
        rw (d, away) refl

-- Calls of the keyboard.
pub data KeyEvent : Type 0 where
  down up : List ℕ → KeyEvent
  reset : KeyEvent

-- The keys by their names.
abbrev pub is_space : List ℕ → Bool
is_space key = is_in key (text "space" ∷ text " " ∷ [])

abbrev pub is_escape : List ℕ → Bool
is_escape key = is_in key (text "escape" ∷ text "esc" ∷ text "q" ∷ [])

module _ (lower : List ℕ → List ℕ) where
  -- A key is held if it went down, and since then neither it went up nor anything let go of all keys.
  -- The events are listed with the latest first.
  unfoldable pub is_held : List ℕ → List KeyEvent → Bool
  is_held q [] = false
  is_held q (reset ∷ before) = false
  is_held q (up key ∷ before) = not (same_bytes (lower key) q) && is_held q before
  is_held q (down key ∷ before) =
      let earlier = is_held q before in
      if is_space (lower key) || is_escape (lower key)
      then false
      else same_bytes q (lower key) || earlier

  -- Space was pressed at some time.
  unfoldable pub is_stopped : List KeyEvent → Bool
  is_stopped [] = false
  is_stopped (down key ∷ before) = is_space (lower key) || is_stopped before
  is_stopped (event ∷ before) = is_stopped before

  unfoldable pub is_left : List KeyEvent → Bool
  is_left [] = false
  is_left (down key ∷ before) =
      (not (is_space (lower key)) && is_escape (lower key)) || is_left before
  is_left (event ∷ before) = is_left before

  abbrev pub any_held : List (List ℕ) → List KeyEvent → Bool
  any_held [] events = false
  any_held (key ∷ keys) events = is_held key events || any_held keys events

  module _ {W : Type 0} where
    unfoldable pub type_keys : List KeyEvent → Keyboard W → Keyboard W
    type_keys [] k = k
    type_keys (reset ∷ before) k = reset_keys (type_keys before k)
    type_keys (up key ∷ before) k = key_up lower key (type_keys before k)
    type_keys (down key ∷ before) k = key_down lower key (type_keys before k)

    -- What the events make of a keyboard that nothing has been pressed on.
    record Reads (output : W) (events : List KeyEvent) (k : Keyboard W) : Type 0 where
      scale : k.maximum_output ≡ output
      holds : (q : List ℕ) → is_in q k.pressed ≡ is_held q events
      stop : k.emergency ≡ is_stopped events
      leave : k.exit ≡ is_left events

    press-keeps :
        (output : W) (before : List KeyEvent) (stop leave : Bool) (key : List ℕ) (k : Keyboard W)
        → Reads output before k
        → ((press stop leave key k).maximum_output ≡ output)
          × ((q : List ℕ)
              → is_in q (press stop leave key k).pressed
                ≡ (if stop || leave then false else same_bytes q key || is_held q before))
          × ((press stop leave key k).emergency ≡ (stop || is_stopped before))
          × ((press stop leave key k).exit ≡ ((not stop && leave) || is_left before))
    press-keeps output before true leave key k r = (r.scale, λ q. refl, refl, r.leave)
    press-keeps output before false true key k r = (r.scale, λ q. refl, r.stop, refl)
    press-keeps output before false false key k r = (
      r.scale,
      λ q. is_in-add q key k.pressed ∙ ap (λ b. same_bytes q key || b) (r.holds q),
      r.stop,
      r.leave,
    )

    type_keys-Reads :
        (output : W) (events : List KeyEvent)
        → Reads output events (
            type_keys events
              (record { maximum_output = output; pressed = []; emergency = false; exit = false }))
    unfolding type_keys is_held is_stopped is_left key_down key_up reset_keys
    type_keys-Reads output [] = record {
      scale = refl;
      holds = λ q. refl;
      stop = refl;
      leave = refl;
    }
    type_keys-Reads output (reset ∷ before) =
        let r = type_keys-Reads output before in
        record { scale = r.scale; holds = λ q. refl; stop = r.stop; leave = r.leave }
    type_keys-Reads output (up key ∷ before) =
        let r = type_keys-Reads output before in
        record {
          scale = r.scale;
          holds = λ q.
              is_in-discard q (lower key) _
              ∙ ap (λ b. not (same_bytes (lower key) q) && b) (r.holds q);
          stop = r.stop;
          leave = r.leave;
        }
    type_keys-Reads output (down key ∷ before) =
        let r = type_keys-Reads output before in
        let (scale, holds, stop, leave) =
          press-keeps output before (is_in (lower key) stop_keys) (is_in (lower key) exit_keys)
            (lower key) _ r in
        record { scale = scale; holds = holds; stop = stop; leave = leave }

    meets-held :
        (output : W) (events : List KeyEvent) (k : Keyboard W)
        → Reads output events k
        → (keys : List (List ℕ)) → meets k.pressed keys ≡ any_held keys events
    meets-held output events k r [] = refl
    meets-held output events k r (key ∷ keys) =
        ap₂ (λ a b. a || b) (r.holds key) (meets-held output events k r keys)

  module _ {W : Type 0} ⦃f : Floats W⦄ where
    -- An axis is the output if only its first side is held, the negative of the output if only its
    -- second side is, and zero otherwise.
    abbrev pub side_of : Bool → Bool → W → W
    side_of first second output =
        if first && not second then output else if second && not first then f.neg output else nought

    keyed_axis-side_of :
        (first second : Bool) (output : W)
        → keyed_axis first second output ≡ side_of first second output
    keyed_axis-side_of true true output = refl
    keyed_axis-side_of true false output = refl
    keyed_axis-side_of false true output = refl
    keyed_axis-side_of false false output = refl

    abbrev pub held_axis : List (List ℕ) → List (List ℕ) → List KeyEvent → W → W
    held_axis positive negative events output =
        side_of (any_held positive events) (any_held negative events) output

    -- The input that the keys give which are held.
    abbrev pub held_input : W → List KeyEvent → ℕ → ControlInput W
    held_input output events now =
        let yaw =
          held_axis (text "right" ∷ text "d" ∷ []) (text "left" ∷ text "a" ∷ []) events output in
        let pitch =
          held_axis (text "up" ∷ text "w" ∷ []) (text "down" ∷ text "s" ∷ []) events output in
        record (at_rest keyboard now) {
          yaw = yaw;
          pitch = pitch;
          emergency_stop = is_stopped events;
          exit_requested = is_left events;
          active = not (f.eq yaw nought) || not (f.eq pitch nought);
        }

    keyed_axis-within :
        (output : W)
        → within (f.literal 1 1) nought ≡ true
        → within (f.literal 1 1) output ≡ true
        → within (f.literal 1 1) (f.neg output) ≡ true
        → (a b : Bool) → within (f.literal 1 1) (side_of a b output) ≡ true
    keyed_axis-within output z p n true true = z
    keyed_axis-within output z p n true false = p
    keyed_axis-within output z p n false true = n
    keyed_axis-within output z p n false false = z

    typed_input : W → W → Bool → Bool → ℕ → ControlInput W
    typed_input yaw pitch stop leave now = record (at_rest keyboard now) {
      yaw = yaw;
      pitch = pitch;
      emergency_stop = stop;
      exit_requested = leave;
      active = not (f.eq yaw nought) || not (f.eq pitch nought);
    }

    same_axis :
        (output : W) (events : List KeyEvent) (k : Keyboard W)
        → Reads output events k
        → (positive negative : List (List ℕ))
        → keyed_axis (meets k.pressed positive) (meets k.pressed negative) k.maximum_output
          ≡ held_axis positive negative events output
    same_axis output events k r positive negative =
        ap (keyed_axis _ _) r.scale
        ∙ ap₂ (λ a b. keyed_axis a b output) (meets-held output events k r positive)
            (meets-held output events k r negative)
        ∙ keyed_axis-side_of (any_held positive events) (any_held negative events) output

    current_keys-Reads :
        (output : W) (events : List KeyEvent) (k : Keyboard W) (now : ℕ)
        → Reads output events k
        → current_keys k now ≡ check_input (held_input output events now)
    unfolding current_keys typed_input
    current_keys-Reads output events k now r =
        ap (λ y. check_input (typed_input y (keyed_pitch k) k.emergency k.exit now))
          (same_axis output events k r yaw_positive yaw_negative)
        ∙ ap
            (λ t. check_input (
              typed_input (held_axis yaw_positive yaw_negative events output) t k.emergency k.exit
                now))
            (same_axis output events k r pitch_positive pitch_negative)
        ∙ ap₂
            (λ stop leave. check_input (
              typed_input (held_axis yaw_positive yaw_negative events output)
                (held_axis pitch_positive pitch_negative events output) stop leave now))
            r.stop r.leave

    new_keyboard-fresh :
        (output : W) (k : Keyboard W)
        → new_keyboard output ≡ ok k
        → record { maximum_output = output; pressed = []; emergency = false; exit = false } ≡ k
    unfolding new_keyboard
    new_keyboard-fresh output k made =
        elim (Bool-cases (not (f.lt nought output && f.le output (f.literal 1 1)))) [
          | inl e ↦ absurd (cc (rw e at made))
          | inr e ↦ cc (rw e at made)
        ]

    -- The reading of a keyboard after any keys have gone down and up is the input of the keys that
    -- are held: the yaw is the output of the keyboard if Right or D is held and neither Left nor A is,
    -- its negative if only Left or A is, and zero otherwise; the pitch likewise by Up or W and by
    -- Down or S. The reading asks for an
    -- emergency stop if the space key ever went down, whatever followed, and for the exit likewise.
    -- The output, its negative and zero must be normalized; then the reading does not fail.
    pub current_keys-held :
        (output : W) (k : Keyboard W) (events : List KeyEvent) (now : ℕ)
        → new_keyboard output ≡ ok k
        → within (f.literal 1 1) nought ≡ true
        → within (f.literal 1 1) output ≡ true
        → within (f.literal 1 1) (f.neg output) ≡ true
        → current_keys (type_keys events k) now ≡ ok (held_input output events now)
    unfolding check_input
    current_keys-held output k events now made z p n =
        let r : Reads output events (type_keys events k) =
          subst (λ k. Reads output events (type_keys events k)) (new_keyboard-fresh output k made)
            (type_keys-Reads output events) in
        let yaw =
          keyed_axis-within output z p n (any_held yaw_positive events)
            (any_held yaw_negative events) in
        let pitch =
          keyed_axis-within output z p n (any_held pitch_positive events)
            (any_held pitch_negative events) in
        current_keys-Reads output events (type_keys events k) now r ∙ rw (yaw, pitch) refl
