-- ===== src/Hardware.antt =====
-- HardwareControlMk3::set_backlight of libsrc/hardwarecontrol_mk3.cpp. The slope of the source,
-- 2.53 for each per cent, is exact in hundredths; at each of the hundred brightnesses the truncated
-- product of the doubles is the truncated quotient below.
pub mod Sensor
pub mod Paths
pub mod Mk3
pub mod Stub
use digital_rooster_gui.Base.{ℕ, ◌-◌, ◌*◌, ◌/◌, ◌≤◌, arith}
use digital_rooster_gui.Base.Int.{ℤ, pos, pos_part, ltb_ℤ, ◌≤ℤ◌}
use digital_rooster_gui.Double.{clamp}

-- The value that goes to the PWM register.
unfoldable pub pwm_val : ℤ → ℕ
pwm_val brightness_in = (25600 - 253 * pos_part (clamp ltb_ℤ brightness_in (pos 1) (pos 100))) / 100

-- The register value lies between 3 and 253, so it fits eight bits and the light is never off.
pub pwm_val_range : (b : ℤ) → (3 ≤ pwm_val b) × (pwm_val b ≤ 253)
unfolding pwm_val clamp
pwm_val_range b = ground arith

-- A larger brightness never gives a larger register value: the register is inverted.
pub pwm_val_antitone : (b c : ℤ) → b ≤ℤ c → pwm_val c ≤ pwm_val b
unfolding pwm_val clamp
pwm_val_antitone b c h = ground arith
