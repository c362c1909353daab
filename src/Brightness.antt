-- ===== src/Brightness.antt =====
-- include/brightnesscontrol.hpp and libsrc/brightnesscontrol.cpp, with the part of the store and of
-- the hardware that the control reads. A slot returns the new control and what it emits, in order.
pub mod Backlight
pub mod Subscriptions
use digital_rooster_gui.Base.{
  ℕ, zero, suc, Bool, true, false, not, ◌&&◌, xor, List, [], ◌∷◌, ◌++◌, if◌then◌else◌,
}
use digital_rooster_gui.Base.Int.{ℤ, pos, ltb_ℤ}
use digital_rooster_gui.Double.{Double, clamp}

pub data Signal : Type 0 where
  brightness_changed : ℤ → Signal
  active_brightness_changed : ℤ → Signal
  standby_brightness_changed : ℤ → Signal
  adaptive_mode_changed : Bool → Signal
  set_backlight : ℤ → Signal

-- The last three readings of a channel, the newest first.
pub record Channel (D : Type 0) : Type 0 where
  pub newest : D
  pub second : D
  pub third : D

pub record AlsValue (D : Type 0) : Type 0 where
  pub red : D
  pub green : D
  pub blue : D
  pub clear : D

-- `subscriptions` counts the connections of the sensor's signal to this object; the store's values
-- are `brightness_act`, `brightness_sb` and `backlight_control`.
pub record BrightnessControl (D : Type 0) : Type 0 where
  pub brightness_act : ℤ
  pub brightness_sb : ℤ
  pub backlight_control : Bool
  pub als_sensor : Bool
  pub subscriptions : ℕ
  pub current_brightness : ℤ
  pub standby : Bool
  pub reds : Channel D
  pub greens : Channel D
  pub blues : Channel D
  pub clears : Channel D

-- The store's setters clamp: Configuration::set_active_brightness and set_standby_brightness.
unfoldable pub percent : ℤ → ℤ
percent b = clamp ltb_ℤ b (pos 0) (pos 100)

module _ {D : Type 0} (f : Double D) where
  open f use {add, sub, mul, div, neg, log, ratio, of_int, round, less}

  -- LOG_100 is 4.6052.
  unfoldable pub lin2log : D → ℤ
  lin2log lb =
      let lin = clamp less (div lb (ratio 100 1)) (ratio 0 1) (ratio 999 1000) in
      let log_brightness = div (neg (log (sub (ratio 1 1) lin))) (ratio 46052 10000) in
      round (mul log_brightness (ratio 100 1))

  unfoldable pub rgb_luma : AlsValue D → D
  rgb_luma v =
      add (add (mul v.red (ratio 213 1000)) (mul v.green (ratio 715 1000)))
        (mul v.blue (ratio 73 1000))

  shift : D → Channel D → Channel D
  shift v c = record { newest = v; second = c.newest; third = c.second }

  -- std::inner_product with the filter's coefficients
  filtered : Channel D → D
  filtered c =
      add (add (add (ratio 0 1) (mul c.newest (ratio 1 1))) (mul c.second (ratio 5 10)))
        (mul c.third (ratio 3 10))

  unfoldable pub filter_sensor : BrightnessControl D → AlsValue D → BrightnessControl D × AlsValue D
  unfolding shift filtered
  filter_sensor b v =
      let reds = shift v.red b.reds in
      let greens = shift v.green b.greens in
      let blues = shift v.blue b.blues in
      let clears = shift v.clear b.clears in
      (
        record b { reds = reds; greens = greens; blues = blues; clears = clears },
        record {
          red = filtered reds;
          green = filtered greens;
          blue = filtered blues;
          clear = filtered clears;
        },
      )

  unfoldable pub update_backlight : BrightnessControl D → D → BrightnessControl D × List Signal
  update_backlight b bl =
      let current =
        if b.standby
        then lin2log (add (of_int b.brightness_sb) bl)
        else lin2log (add (of_int b.brightness_act) bl) in
      (
        record b { current_brightness = current },
        set_backlight current ∷ brightness_changed current ∷ [],
      )

  unfoldable pub adaptive_mode : BrightnessControl D → Bool
  adaptive_mode b = b.backlight_control && b.als_sensor

  unless_adaptive : BrightnessControl D → BrightnessControl D × List Signal
  unless_adaptive b = if adaptive_mode b then (b, []) else update_backlight b (ratio 0 1)

  unfoldable pub als_value_changed :
      BrightnessControl D → AlsValue D → BrightnessControl D × List Signal
  als_value_changed b v =
      let (b', smooth) = filter_sensor b v in update_backlight b' (rgb_luma smooth)

  unfoldable pub set_active_brightness : BrightnessControl D → ℤ → BrightnessControl D × List Signal
  unfolding unless_adaptive
  set_active_brightness b brightness =
      let (b', signals) = unless_adaptive (record b { brightness_act = percent brightness }) in
      (b', active_brightness_changed brightness ∷ signals)

  unfoldable pub set_standby_brightness :
      BrightnessControl D → ℤ → BrightnessControl D × List Signal
  unfolding unless_adaptive
  set_standby_brightness b brightness =
      let (b', signals) = unless_adaptive (record b { brightness_sb = percent brightness }) in
      (b', standby_brightness_changed brightness ∷ signals)

  subscribe_als_value_change : BrightnessControl D → BrightnessControl D
  subscribe_als_value_change b =
      if b.als_sensor then record b { subscriptions = suc b.subscriptions } else b

  note_mode : BrightnessControl D → Bool → BrightnessControl D × List Signal
  note_mode b ena =
      if xor ena b.backlight_control
      then (record b { backlight_control = ena }, adaptive_mode_changed ena ∷ [])
      else (b, [])

  follow_mode : BrightnessControl D → Bool → BrightnessControl D × List Signal
  follow_mode b true = (subscribe_als_value_change b, [])
  follow_mode b false = update_backlight (record b { subscriptions = 0 }) (ratio 0 1)

  -- QObject::connect adds a connection at each call, QObject::disconnect removes them all.
  unfoldable pub set_adaptive_mode : BrightnessControl D → Bool → BrightnessControl D × List Signal
  unfolding subscribe_als_value_change note_mode follow_mode
  set_adaptive_mode b ena =
      let (b', first) = note_mode b ena in
      let (b'', second) = follow_mode b' ena in (b'', first ++ second)

  unfoldable pub set_active : BrightnessControl D → Bool → BrightnessControl D × List Signal
  unfolding unless_adaptive
  set_active b active = unless_adaptive (record b { standby = not active })

  -- One reading of the sensor reaches the object once for each connection.
  unfoldable pub deliver : ℕ → BrightnessControl D → AlsValue D → BrightnessControl D × List Signal
  deliver zero b v = (b, [])
  deliver (suc n) b v =
      let (b', first) = als_value_changed b v in
      let (b'', rest) = deliver n b' v in (b'', first ++ rest)
