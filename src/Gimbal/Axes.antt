-- ===== src/Gimbal/Axes.antt =====
-- protocol/gimbal_commands.py: the builder from the normalized axes on.
use openframetap.Floats.{Floats, nought, within}
use openframetap.Gimbal.{SpeedProfile, BuildError, build_speed_frame, axis_outside}
use openframetap.Prelude.{not, ◌>>◌, reject_if, false, if◌then◌else◌, List, Result, ℕ, Bool}

-- `Pocket3GimbalSpeedProfile` with its two floats.
pub record AxisProfile (W : Type 0) : Type 0 where
  pub base : SpeedProfile
  pub reference_speed_dps : W
  pub max_live_axis : W

module _ {W : Type 0} ⦃f : Floats W⦄ where
  unfoldable pub validate_axis : AxisProfile W → W → Bool → Result BuildError (Unit {0})
  validate_axis profile value live =
      let limit = if live then profile.max_live_axis else f.literal 1 1 in
      reject_if (not (within limit value)) axis_outside

  -- `build_speed_frame` of axes: `speed_payload` checks both, and rounds them.
  unfoldable pub build_axes_frame :
      AxisProfile W → ℕ → W → W → Bool → Bool → Result BuildError (List ℕ)
  unfolding validate_axis
  build_axes_frame profile sequence yaw pitch live release = do
    validate_axis profile yaw live
    validate_axis profile pitch live
    build_speed_frame profile.base sequence (f.rounded_units pitch profile.reference_speed_dps)
        (f.rounded_units yaw profile.reference_speed_dps) release

  unfoldable pub build_axes_zero : AxisProfile W → ℕ → Result BuildError (List ℕ)
  unfolding build_axes_frame
  build_axes_zero profile sequence = build_axes_frame profile sequence nought nought false false
