-- ===== src/Input/Touch.antt =====
-- app/input.py: the touch joystick, its configuration, and the inputs for tests and for a gamepad.
use openframetap.Prelude.{
  ℕ, Bool, true, false, Option, none, some, ◌==◌, if◌then◌else◌, not, ◌&&◌, ◌||◌, ltb, leb, Result,
  ok, err, reject_if, ◌>>◌,
}
use openframetap.Floats.{Floats, FloatProducts, nought, minimum, maximum}
use openframetap.Safety.{ControlInput, touch, mock, gamepad_unavailable, ControlError}
use openframetap.Safety.Setup.{check_input, at_rest}

pub record JoystickConfig (W : Type 0) : Type 0 where
  pub logical_width : ℕ
  pub logical_height : ℕ
  pub center_x : W
  pub center_y : W
  pub radius : W
  pub deadzone : W
  pub overlay_size : ℕ
  pub keyboard_output : W
  pub protocol_offset_min : ℕ
  pub protocol_offset_max : ℕ

pub data JoystickError : Type 0 where
  geometry_not_positive deadzone_outside overlay_too_small keyboard_outside offsets_outside :
      JoystickError

-- `TouchJoystickInput`; a finger is a number
pub record Joystick (W : Type 0) : Type 0 where
  pub config : JoystickConfig W
  pub touch_id : Option ℕ
  pub value : ControlInput W

-- What a method leaves, and the input that it returns.
abbrev pub Touched : Type 0 → Type 0
Touched W = Joystick W × Result ControlError (ControlInput W)

-- touch_id == self._touch_id
abbrev pub holds_stick : ℕ → Option ℕ → Bool
holds_stick id none = false
holds_stick id (some owner) = id == owner

-- self._touch_id is not None and touch_id != self._touch_id
abbrev pub is_taken : ℕ → Option ℕ → Bool
is_taken id none = false
is_taken id (some owner) = not (id == owner)

-- touch_id is None or touch_id == self._touch_id
abbrev pub is_cancelled : Option ℕ → Option ℕ → Bool
is_cancelled none owner = true
is_cancelled (some id) owner = holds_stick id owner

module _ {W : Type 0} ⦃f : Floats W⦄ where
  abbrev one : W
  one = f.literal 1 1

  -- `JoystickConfig.__post_init__`
  unfoldable pub check_joystick : JoystickConfig W → Result JoystickError (Unit {0})
  check_joystick c = do
    reject_if (c.logical_width == 0 || c.logical_height == 0 || f.le c.radius nought)
        geometry_not_positive
    reject_if (not (f.le nought c.deadzone && f.lt c.deadzone one)) deadzone_outside
    reject_if (ltb c.overlay_size 200) overlay_too_small
    reject_if (not (f.lt nought c.keyboard_output && f.le c.keyboard_output one)) keyboard_outside
    reject_if
        (not (
          leb 1 c.protocol_offset_min
          && ltb c.protocol_offset_min c.protocol_offset_max
          && leb c.protocol_offset_max 188))
        offsets_outside

  -- float(value) clamped to -1.0..1.0
  abbrev pub normalized_axis : W → W
  normalized_axis value = maximum (f.neg one) (minimum one value)

  -- `MockInput.set_axes`
  unfoldable pub mock_axes : W → W → ℕ → Result ControlError (ControlInput W)
  mock_axes yaw pitch now = check_input (record (at_rest mock now) {
    yaw = normalized_axis yaw;
    pitch = normalized_axis pitch;
    active = not (f.eq yaw nought) || not (f.eq pitch nought);
  })

  -- `GamepadInput.current`
  abbrev pub gamepad_current : ℕ → ControlInput W
  gamepad_current now = at_rest gamepad_unavailable now

  abbrev pub new_joystick : JoystickConfig W → ℕ → Joystick W
  new_joystick config now = record { config = config; touch_id = none; value = at_rest touch now }

  abbrev pub let_go : Joystick W → ℕ → Touched W
  let_go j now = (record j { touch_id = none; value = at_rest touch now }, ok (at_rest touch now))

  unfoldable pub touch_up : ℕ → ℕ → Joystick W → Touched W
  touch_up id now j = if holds_stick id j.touch_id then let_go j now else (j, ok j.value)

  unfoldable pub touch_cancel : Option ℕ → ℕ → Joystick W → Touched W
  touch_cancel id now j = if is_cancelled id j.touch_id then let_go j now else (j, ok j.value)

  module _ ⦃p : FloatProducts W⦄ where
    -- the last steps of `map_touch_axes`
    abbrev pub scaled_axes : W → W → W → JoystickConfig W → W × W
    scaled_axes dx dy magnitude config =
        let normalized = p.div (f.sub magnitude config.deadzone) (f.sub one config.deadzone) in
        (p.mul (p.div dx magnitude) normalized, p.mul (p.div dy magnitude) normalized)

    unfoldable pub map_touch_axes : W → W → JoystickConfig W → W × W
    map_touch_axes x y config =
        let dx = p.div (f.sub x config.center_x) config.radius in
        let dy = p.div (f.sub config.center_y y) config.radius in
        let magnitude = p.hypot dx dy in
        if f.le magnitude config.deadzone
        then (nought, nought)
        else if f.lt one magnitude
        then scaled_axes (p.div dx magnitude) (p.div dy magnitude) one config
        else scaled_axes dx dy magnitude config

    abbrev pub kept_value : Joystick W → Result ControlError (ControlInput W) → Touched W
    kept_value j (err e) = (j, err e)
    kept_value j (ok value) = (record j { value = value }, ok value)

    -- `_set`
    unfoldable pub set_stick : W → W → ℕ → Joystick W → Touched W
    set_stick x y now j =
        let axes = map_touch_axes x y j.config in
        kept_value j (
          check_input (record (at_rest touch now) {
            yaw = axes.0;
            pitch = axes.1;
            active = not (f.eq axes.0 nought) || not (f.eq axes.1 nought);
          }))

    unfoldable pub touch_down : ℕ → W → W → ℕ → Joystick W → Touched W
    touch_down id x y now j =
        if is_taken id j.touch_id
        then (j, ok j.value)
        else set_stick x y now (record j { touch_id = some id })

    unfoldable pub touch_move : ℕ → W → W → ℕ → Joystick W → Touched W
    touch_move id x y now j =
        if holds_stick id j.touch_id then set_stick x y now j else (j, ok j.value)
