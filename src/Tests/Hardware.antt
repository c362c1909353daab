-- ===== src/Tests/Hardware.antt =====
-- The machine, its sensor and its downloads.
use digital_rooster_gui.Base.{
  ◌≤◌, ℕ, ◌≡◌, true, false, [], ◌∷◌, All, some, none, str_eq, if◌then◌else◌,
}
use digital_rooster_gui.Base.Int.{ℤ, pos, ◌≤ℤ◌}
use digital_rooster_gui.Hardware.{pwm_val}
use digital_rooster_gui.Hardware.Paths.{from_environment}
use digital_rooster_gui.Hardware.Sensor.{Raw, samples}
use digital_rooster_gui.Hardware.Sensor.Failing.{working, samples-announced}
use digital_rooster_gui.Hardware.Mk3.{construct}
use digital_rooster_gui.Wiring.Machine.{Machine, Interrupt, interrupt}
use digital_rooster_gui.Wiring.Machine.Register.{InRange, interrupt-InRange}
use digital_rooster_gui.Tests.Instances.{whole}
use digital_rooster_gui.Tests.Whole.{booted}

-- Everything can be opened but the button, which has no path.
abbrev machine : Machine ℕ
machine = record {
  device = booted;
  hardware =
      (construct (λ path. true)
        (from_environment (λ name.
          if str_eq name "DR_ROTARY_EVENT_PATH" then some "/dev/input/event1" else none))).0;
}

abbrev lit : Raw
lit = record { red = some 12; green = some 20; blue = some 7; clear = some 40 }

interrupt-InRange_example :
    All InRange (interrupt whole machine (Interrupt.samples lit)).1
    × ((b c : ℤ) → b ≤ℤ c → pwm_val c ≤ pwm_val b)
    × (pwm_val (pos 100) ≡ 3)
    × (pwm_val (pos 1) ≡ 253)
interrupt-InRange_example = interrupt-InRange whole machine (Interrupt.samples lit)

abbrev too_bright : Raw
too_bright = record lit { clear = some 70000 }

-- The third reading is complete, but no longer announced.
samples-announced_example :
    ((samples (working true) (lit ∷ too_bright ∷ lit ∷ [])).1
      ≡ record { red = 12; green = 20; blue = 7; clear = 40 } ∷ [])
    × ((samples (working true) (lit ∷ too_bright ∷ lit ∷ [])).0.als_sensor_ok ≡ false)
samples-announced_example = samples-announced (lit ∷ too_bright ∷ lit ∷ [])
