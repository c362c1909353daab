-- ===== src/Brightness/Subscriptions.antt =====
-- How often a reading of the light sensor is handled.
use digital_rooster_gui.Base.{ℕ, zero, suc, ◌+◌, ◌*◌, ◌∙◌, ◌≡◌, refl, true, arith, length}
use digital_rooster_gui.Double.{Double}
use digital_rooster_gui.Brightness.{
  BrightnessControl, AlsValue, set_adaptive_mode, als_value_changed, update_backlight, deliver,
}

module _ {D : Type 0} (f : Double D) where
  pub enable_times : ℕ → BrightnessControl D → BrightnessControl D
  enable_times zero b = b
  enable_times (suc n) b = (set_adaptive_mode f (enable_times n b) true).0

  sensor_stays : (n : ℕ) (b : BrightnessControl D) → (enable_times n b).als_sensor ≡ b.als_sensor
  unfolding enable_times set_adaptive_mode
  sensor_stays zero b = refl
  sensor_stays (suc n) b = ground (arith, sensor_stays n b)

  enabled_again :
      (b : BrightnessControl D)
      → b.als_sensor ≡ true
      → (set_adaptive_mode f b true).0.subscriptions ≡ b.subscriptions + 1
  unfolding set_adaptive_mode
  enabled_again b s = ground arith

  -- With a sensor, each request for the adaptive mode adds a connection, also where the mode is on.
  pub enable_times_subscribes :
      (n : ℕ) (b : BrightnessControl D)
      → b.als_sensor ≡ true
      → (enable_times n b).subscriptions ≡ b.subscriptions + n
  unfolding enable_times
  enable_times_subscribes zero b s = omega arith
  enable_times_subscribes (suc n) b s = omega (
    arith,
    enable_times_subscribes n b s,
    enabled_again (enable_times n b) (sensor_stays n b ∙ s),
  )

  length-deliver :
      (n : ℕ) (b : BrightnessControl D) (v : AlsValue D) → length (deliver f n b v).1 ≡ 2 * n
  unfolding deliver als_value_changed update_backlight
  length-deliver zero b v = refl
  length-deliver (suc n) b v = omega (arith, length-deliver n (als_value_changed f b v).0 v)

  -- So one reading changes the backlight as often as the mode was requested, and at once more for
  -- each connection that was there before.
  pub reading_after_requests :
      (n : ℕ) (b : BrightnessControl D) (v : AlsValue D)
      → b.als_sensor ≡ true
      → let b' = enable_times n b in
        length (deliver f b'.subscriptions b' v).1 ≡ 2 * (b.subscriptions + n)
  reading_after_requests n b v s = omega (
    arith,
    length-deliver (enable_times n b).subscriptions (enable_times n b) v,
    enable_times_subscribes n b s,
  )
