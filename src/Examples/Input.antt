-- ===== src/Examples/Input.antt =====
-- app/input.py on concrete keys and touches.
use openframetap.Prelude.{
  arith, ℕ, zero, suc, false, List, [], ◌∷◌, ◌≡◌, refl, ok, ◌+◌, ◌*◌, ◌/◌, ltb, if◌then◌else◌,
}
use openframetap.Floats.{ℤ, pos, negsuc, abs, FloatProducts}
use openframetap.Texts.{text, lower_letter}
use openframetap.Safety.{touch}
use openframetap.Safety.Setup.{at_rest}
use openframetap.Input.{Keyboard, new_keyboard, current_keys}
use openframetap.Input.Keys.{KeyEvent, down, up, type_keys, held_input, current_keys-held}
use openframetap.Input.Touch.{JoystickConfig, new_joystick}
use openframetap.Input.Released.{
  TouchEvent, lifted, moved, is_down, after_touches, after_touches-at_rest,
}
use openframetap.Examples.Safety.{thousandths, signed_as, opposite}

abbrev lower : List ℕ → List ℕ
lower [] = []
lower (c ∷ cs) = lower_letter c ∷ lower cs

abbrev quarter : Keyboard ℤ
quarter = record { maximum_output = pos 250; pressed = []; emergency = false; exit = false }

quarter-made : new_keyboard (pos 250) ≡ ok quarter
unfolding new_keyboard
quarter-made = refl

-- the latest first: A goes up again, and D, W and the arrow to the left stay down
abbrev keys : List KeyEvent
keys =
    up (text "a")
    ∷ down (text "W")
    ∷ down (text "left")
    ∷ down (text "d")
    ∷ down (text "A")
    ∷ down (text "space")
    ∷ []

current_keys-held_example :
    current_keys (type_keys lower keys quarter) 9 ≡ ok (held_input lower (pos 250) keys 9)
current_keys-held_example =
    current_keys-held lower (pos 250) quarter keys 9 quarter-made refl refl refl

abbrev half_root : ℕ → ℕ → ℕ
half_root zero n = 0
half_root (suc fuel) n =
    let root = half_root fuel n in if ltb n ((root + 1) * (root + 1)) then root else root + 1

abbrev turned_as : ℤ → ℤ → ℤ
turned_as (pos a) b = b
turned_as (negsuc a) b = opposite b

instance abbrev products : FloatProducts ℤ
products = record {
  mul = λ a b. turned_as b (signed_as a (abs a * abs b / 1000));
  div = λ a b. turned_as b (signed_as a (abs a * 1000 / abs b));
  hypot = λ a b. pos (half_root 4000 (abs a * abs a + abs b * abs b));
}

abbrev stick_config : JoystickConfig ℤ
stick_config = record {
  logical_width = 1280;
  logical_height = 720;
  center_x = pos 150000;
  center_y = pos 570000;
  radius = pos 150000;
  deadzone = pos 120;
  overlay_size = 340;
  keyboard_output = pos 410;
  protocol_offset_min = 32;
  protocol_offset_max = 188;
}

abbrev touches : List (TouchEvent ℤ)
touches =
    lifted 7 40
    ∷ lifted 8 30
    ∷ moved 7 (pos 250000) (pos 570000) 20
    ∷ TouchEvent.down 8 (pos 150000) (pos 600000) 15
    ∷ TouchEvent.down 7 (pos 200000) (pos 570000) 10
    ∷ []

nothing_down : (id : ℕ) → is_down id touches ≡ false
unfolding is_down
nothing_down id = ground arith

after_touches-at_rest_example :
    (t : ℕ) × ((after_touches touches (new_joystick stick_config 0)).value ≡ at_rest touch t)
after_touches-at_rest_example = after_touches-at_rest stick_config 0 touches nothing_down
