-- ===== src/Brightness/Backlight.antt =====
-- What the backlight shows.
use digital_rooster_gui.Base.{◌≡◌, List, [], ◌∷◌, arith, if◌then◌else◌}
use digital_rooster_gui.Base.Int.{ℤ, pos, ◌≤ℤ◌}
use digital_rooster_gui.Double.{Double, clamp}
use digital_rooster_gui.Brightness.{BrightnessControl, Signal, percent, lin2log}

-- A stored brightness is a percentage, and a percentage is stored as it is.
pub percent_range :
    (b : ℤ)
    → (pos 0 ≤ℤ percent b) × (percent b ≤ℤ pos 100) × (pos 0 ≤ℤ b → b ≤ℤ pos 100 → percent b ≡ b)
unfolding percent clamp
percent_range b = (ground arith, ground arith, λ h k. ground arith)

module _ {D : Type 0} (f : Double D) where
  open f use {add, of_int, ratio}

  -- The brightness that is configured for the state, on the scale of the hardware.
  abbrev pub configured : BrightnessControl D → ℤ
  configured b =
      lin2log f (add (of_int (if b.standby then b.brightness_sb else b.brightness_act)) (ratio 0 1))

  -- The last value that the hardware is told, or `v` where it is told nothing.
  abbrev pub told : ℤ → List Signal → ℤ
  told v [] = v
  told v (Signal.set_backlight b ∷ ss) = told b ss
  told v (Signal.brightness_changed b ∷ ss) = told v ss
  told v (Signal.active_brightness_changed b ∷ ss) = told v ss
  told v (Signal.standby_brightness_changed b ∷ ss) = told v ss
  told v (Signal.adaptive_mode_changed b ∷ ss) = told v ss

  -- The control holds what is configured, and has told the hardware, whatever that showed before.
  abbrev pub Shows : BrightnessControl D × List Signal → Type 0
  Shows (b, signals) =
      (b.current_brightness ≡ configured b) × ((v : ℤ) → told v signals ≡ configured b)
