-- ===== src/Input/Released.antt =====
-- app/input.py: the touch joystick is at rest when no finger is on it.
use openframetap.Prelude.{
  ℕ, Bool, true, false, Option, none, some, List, [], ◌∷◌, ◌==◌, ◌≡◌, refl, ap, ◌∙◌, sym,
  Bool-cases, Option-cases, inl, inr, not, ◌&&◌, ◌||◌, Result, ok, err, ==_refl,
}
use openframetap.Floats.{Floats, FloatProducts}
use openframetap.Safety.{ControlInput, touch, ControlError}
use openframetap.Safety.Setup.{at_rest}
use openframetap.Input.Touch.{
  Joystick, JoystickConfig, Touched, new_joystick, touch_down, touch_move, touch_up, touch_cancel,
  set_stick, kept_value, let_go, holds_stick, is_taken,
}

-- Calls of the joystick, with the reading of the clock.
pub data TouchEvent (W : Type 0) : Type 0 where
  down moved : ℕ → W → W → ℕ → TouchEvent W
  lifted : ℕ → ℕ → TouchEvent W
  cancelled : Option ℕ → ℕ → TouchEvent W

or_true : (a b : Bool) → b ≡ true → (a || b) ≡ true
or_true true b h = refl
or_true false b h = h

module _ {W : Type 0} where
  -- The finger went down, and was not lifted or cancelled since. The latest event is the first.
  unfoldable pub is_down : ℕ → List (TouchEvent W) → Bool
  is_down id [] = false
  is_down id (down other x y now ∷ before) = other == id || is_down id before
  is_down id (moved other x y now ∷ before) = is_down id before
  is_down id (lifted other now ∷ before) = not (other == id) && is_down id before
  is_down id (cancelled none now ∷ before) = false
  is_down id (cancelled (some other) now ∷ before) = not (other == id) && is_down id before

  module _ ⦃f : Floats W⦄ ⦃p : FloatProducts W⦄ where
    unfoldable pub touch_step : TouchEvent W → Joystick W → Touched W
    touch_step (down id x y now) j = touch_down id x y now j
    touch_step (moved id x y now) j = touch_move id x y now j
    touch_step (lifted id now) j = touch_up id now j
    touch_step (cancelled id now) j = touch_cancel id now j

    unfoldable pub after_touches : List (TouchEvent W) → Joystick W → Joystick W
    after_touches [] j = j
    after_touches (event ∷ before) j = (touch_step event (after_touches before j)).0

    -- The finger that holds the joystick is down; if none holds it, it is at rest.
    record Owned (events : List (TouchEvent W)) (j : Joystick W) : Type 0 where
      owner : (id : ℕ) → j.touch_id ≡ some id → is_down id events ≡ true
      rest : j.touch_id ≡ none → (t : ℕ) × (j.value ≡ at_rest touch t)

    kept_value-id :
        (j : Joystick W) (r : Result ControlError (ControlInput W))
        → (kept_value j r).0.touch_id ≡ j.touch_id
    kept_value-id j (ok value) = refl
    kept_value-id j (err e) = refl

    let_go-Owned :
        (events : List (TouchEvent W)) (j : Joystick W) (now : ℕ) → Owned events (let_go j now).0
    let_go-Owned events j now = record { owner = λ id e. absurd (cc e); rest = λ e. (now, refl) }

    down-Owned :
        (id : ℕ) (x y : W) (now : ℕ) (before : List (TouchEvent W)) (j : Joystick W)
        → Owned before j
        → Owned (down id x y now ∷ before) (touch_down id x y now j).0
    unfolding touch_down set_stick is_down
    down-Owned id x y now before j h = elim (Bool-cases (is_taken id j.touch_id)) [
      | inl e ↦ rw e (record { owner = λ o s. or_true (id == o) _ (h.owner o s); rest = h.rest })
      | inr e ↦ rw e (record {
        owner = λ o s.
            let same : id ≡ o = cc (sym (kept_value-id (record j { touch_id = some id }) _) ∙ s) in
            rw same (own o);
        rest = λ s. absurd (cc (sym (kept_value-id (record j { touch_id = some id }) _) ∙ s));
      })
    ]
      where
        own : (o : ℕ) → (o == o || is_down o before) ≡ true
        own o = rw (==_refl o) refl

    moved-Owned :
        (id : ℕ) (x y : W) (now : ℕ) (before : List (TouchEvent W)) (j : Joystick W)
        → Owned before j
        → Owned (moved id x y now ∷ before) (touch_move id x y now j).0
    unfolding touch_move set_stick is_down
    moved-Owned id x y now before j h = elim (Bool-cases (holds_stick id j.touch_id)) [
      | inr e ↦ rw e (record { owner = h.owner; rest = h.rest })
      | inl e ↦ rw e (record {
        owner = λ o s. h.owner o (sym (kept_value-id j _) ∙ s);
        rest = λ s.
            let unheld : j.touch_id ≡ none = sym (kept_value-id j _) ∙ s in
            absurd (cc (ap (holds_stick id) unheld, e));
      })
    ]

    -- a finger that does not hold the joystick is lifted
    other-Owned :
        (id : ℕ) (events before : List (TouchEvent W)) (j : Joystick W)
        → ((o : ℕ) → is_down o events ≡ (not (id == o) && is_down o before))
        → holds_stick id j.touch_id ≡ false
        → Owned before j
        → Owned events j
    other-Owned id events before j same e h = record {
      owner = λ o s.
          let differ : (id == o) ≡ false = sym (ap (holds_stick id) s) ∙ e in
          let old = h.owner o s in same o ∙ rw differ old;
      rest = h.rest;
    }

    lifted-Owned :
        (id now : ℕ) (before : List (TouchEvent W)) (j : Joystick W)
        → Owned before j
        → Owned (lifted id now ∷ before) (touch_up id now j).0
    unfolding touch_up is_down
    lifted-Owned id now before j h = elim (Bool-cases (holds_stick id j.touch_id)) [
      | inl e ↦ rw e (let_go-Owned _ j now)
      | inr e ↦ rw e (other-Owned id _ before j (λ o. refl) e h)
    ]

    cancelled-Owned :
        (id : Option ℕ) (now : ℕ) (before : List (TouchEvent W)) (j : Joystick W)
        → Owned before j
        → Owned (cancelled id now ∷ before) (touch_cancel id now j).0
    unfolding touch_cancel is_down
    cancelled-Owned none now before j h = let_go-Owned _ j now
    cancelled-Owned (some id) now before j h = elim (Bool-cases (holds_stick id j.touch_id)) [
      | inl e ↦ rw e (let_go-Owned _ j now)
      | inr e ↦ rw e (other-Owned id _ before j (λ o. refl) e h)
    ]

    after_touches-Owned :
        (config : JoystickConfig W) (begun : ℕ) (events : List (TouchEvent W))
        → Owned events (after_touches events (new_joystick config begun))
    unfolding after_touches touch_step is_down
    after_touches-Owned config begun [] = record {
      owner = λ id e. absurd (cc e);
      rest = λ e. (begun, refl);
    }
    after_touches-Owned config begun (down id x y now ∷ before) =
        down-Owned id x y now before _ (after_touches-Owned config begun before)
    after_touches-Owned config begun (moved id x y now ∷ before) =
        moved-Owned id x y now before _ (after_touches-Owned config begun before)
    after_touches-Owned config begun (lifted id now ∷ before) =
        lifted-Owned id now before _ (after_touches-Owned config begun before)
    after_touches-Owned config begun (cancelled id now ∷ before) =
        cancelled-Owned id now before _ (after_touches-Owned config begun before)

    -- After any touches, in any order and by any fingers, if no finger is down that was not lifted
    -- or cancelled since, then the joystick gives an input at rest. Here moves of fingers that do not
    -- hold the joystick count for nothing.
    pub after_touches-at_rest :
        (config : JoystickConfig W) (begun : ℕ) (events : List (TouchEvent W))
        → ((id : ℕ) → is_down id events ≡ false)
        → (t : ℕ) × ((after_touches events (new_joystick config begun)).value ≡ at_rest touch t)
    after_touches-at_rest config begun events none_down =
        let j = after_touches events (new_joystick config begun) in
        let h : Owned events j = after_touches-Owned config begun events in
        elim (Option-cases j.touch_id) [
          | inl e ↦ h.rest e
          | inr (id, e) ↦ absurd (cc (h.owner id e, none_down id))
        ]
