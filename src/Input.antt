-- ===== src/Input.antt =====
-- app/input.py: the keyboard, which gives inputs to the controller.
pub mod Touch
pub mod Keys
pub mod Released
use openframetap.Prelude.{
  ℕ, Bool, true, false, Option, none, some, List, [], ◌∷◌, ◌==◌, if◌then◌else◌, not, ◌+◌, ◌&&◌,
  ◌||◌, ltb, leb, Result, ok, err, reject_if, ◌>>◌, ◌>>=◌,
}
use openframetap.Floats.{Floats, nought}
use openframetap.Bytes.{same_bytes}
use openframetap.Texts.{text, is_in}
use openframetap.Safety.{ControlInput, Source, keyboard, touch, ControlError}
use openframetap.Safety.Setup.{check_input, at_rest}

-- The sets of keys, after `lower`.
abbrev pub yaw_negative : List (List ℕ)
yaw_negative = text "left" ∷ text "a" ∷ []

abbrev pub yaw_positive : List (List ℕ)
yaw_positive = text "right" ∷ text "d" ∷ []

abbrev pub pitch_positive : List (List ℕ)
pitch_positive = text "up" ∷ text "w" ∷ []

abbrev pub pitch_negative : List (List ℕ)
pitch_negative = text "down" ∷ text "s" ∷ []

abbrev pub stop_keys : List (List ℕ)
stop_keys = text "space" ∷ text " " ∷ []

abbrev pub exit_keys : List (List ℕ)
exit_keys = text "escape" ∷ text "esc" ∷ text "q" ∷ []

-- `KeyboardInput`; the pressed keys are a set
pub record Keyboard (W : Type 0) : Type 0 where
  pub maximum_output : W
  pub pressed : List (List ℕ)
  pub emergency : Bool
  pub exit : Bool

pub data InputError : Type 0 where
  maximum_outside : InputError

-- pressed.add(key)
abbrev pub add_key : List ℕ → List (List ℕ) → List (List ℕ)
add_key key keys = if is_in key keys then keys else key ∷ keys

-- pressed.discard(key)
abbrev pub discard_key : List ℕ → List (List ℕ) → List (List ℕ)
discard_key key [] = []
discard_key key (k ∷ keys) =
    let rest = discard_key key keys in if same_bytes key k then rest else k ∷ rest

-- bool(pressed & keys)
abbrev pub meets : List (List ℕ) → List (List ℕ) → Bool
meets pressed [] = false
meets pressed (key ∷ keys) = is_in key pressed || meets pressed keys

module _ {W : Type 0} ⦃f : Floats W⦄ where
  unfoldable pub new_keyboard : W → Result InputError (Keyboard W)
  new_keyboard output = do
    reject_if (not (f.lt nought output && f.le output (f.literal 1 1))) maximum_outside
    ok (record { maximum_output = output; pressed = []; emergency = false; exit = false })

  -- (int(positive) - int(negative)) * maximum_output
  abbrev pub keyed_axis : Bool → Bool → W → W
  keyed_axis true true output = nought
  keyed_axis true false output = output
  keyed_axis false true output = f.neg output
  keyed_axis false false output = nought

  abbrev pub keyed_yaw : Keyboard W → W
  keyed_yaw k =
      keyed_axis (meets k.pressed yaw_positive) (meets k.pressed yaw_negative) k.maximum_output

  abbrev pub keyed_pitch : Keyboard W → W
  keyed_pitch k =
      keyed_axis (meets k.pressed pitch_positive) (meets k.pressed pitch_negative) k.maximum_output

  -- `current`, at a reading of the clock
  unfoldable pub current_keys : Keyboard W → ℕ → Result ControlError (ControlInput W)
  current_keys k now = check_input (record (at_rest keyboard now) {
    yaw = keyed_yaw k;
    pitch = keyed_pitch k;
    emergency_stop = k.emergency;
    exit_requested = k.exit;
    active = not (f.eq (keyed_yaw k) nought) || not (f.eq (keyed_pitch k) nought);
  })

module _ {W : Type 0} where
  -- `key_down` of a key that is, or is not, for stopping and for leaving
  abbrev pub press : Bool → Bool → List ℕ → Keyboard W → Keyboard W
  press true leave key k = record k { emergency = true; pressed = [] }
  press false true key k = record k { exit = true; pressed = [] }
  press false false key k = record k { pressed = add_key key k.pressed }

  -- `lower` is Python's, as a parameter.
  module _ (lower : List ℕ → List ℕ) where
    unfoldable pub key_down : List ℕ → Keyboard W → Keyboard W
    key_down key k = press (is_in (lower key) stop_keys) (is_in (lower key) exit_keys) (lower key) k

    unfoldable pub key_up : List ℕ → Keyboard W → Keyboard W
    key_up key k = record k { pressed = discard_key (lower key) k.pressed }

  unfoldable pub reset_keys : Keyboard W → Keyboard W
  reset_keys k = record k { pressed = [] }
