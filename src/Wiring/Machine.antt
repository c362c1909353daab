-- ===== src/Wiring/Machine.antt =====
-- The device on its hardware: qtgui/main.cpp connects the events of the hardware to the knob and the
-- backlight, and the backlight and the power control to the hardware's slots.
pub mod Register
use digital_rooster_gui.Base.{
  ℕ, ◌≤◌, ◌≡◌, refl, String, Bool, true, false, List, [], ◌∷◌, ◌++◌, All, All-append, arith,
  if◌then◌else◌, Bool-cases, inl, inr,
}
use digital_rooster_gui.Base.Int.{ℤ, pos}
use digital_rooster_gui.Double.{Double}
use digital_rooster_gui.Brightness.{AlsValue}
use digital_rooster_gui.VolumeButton
use digital_rooster_gui.Hardware.{pwm_val, pwm_val_range}
use digital_rooster_gui.Hardware.Sensor.{Raw}
use digital_rooster_gui.Hardware.Mk3
use digital_rooster_gui.Hardware.Mk3.{HardwareControl, Read, Effect, pwm}
use digital_rooster_gui.Wiring
use digital_rooster_gui.Wiring.{Device, Output, button_event, rotary_event, als_value_changed}

pub record Machine (D : Type 0) : Type 0 where
  pub device : Device D
  pub hardware : HardwareControl

-- What the notifiers and the timer of the hardware report.
pub data Interrupt : Type 0 where
  button_readable rotary_readable : Read → Interrupt
  samples : Raw → Interrupt

-- The slots of the hardware; the player is another part.
perform : HardwareControl → Output → List Effect
perform h (Wiring.set_backlight b) = Mk3.set_backlight h b
perform h Wiring.system_reboot = Mk3.system_reboot h
perform h Wiring.system_poweroff = Mk3.system_poweroff h
perform h (Wiring.player c) = []
perform h Wiring.player_stop = []
perform h (Wiring.increment_volume n) = []

performed : HardwareControl → List Output → List Effect
performed h [] = []
performed h (o ∷ os) = perform h o ++ performed h os

module _ {D : Type 0} (f : Double D) where
  of_sensor : AlsValue ℕ → AlsValue D
  of_sensor v = record {
    red = f.of_int (pos v.red);
    green = f.of_int (pos v.green);
    blue = f.of_int (pos v.blue);
    clear = f.of_int (pos v.clear);
  }

  with_device : Machine D → Device D × List Output → Machine D × List Effect
  with_device m (d, outputs) = (record m { device = d }, performed m.hardware outputs)

  -- The slots of one signal of the hardware.
  dispatch : Machine D → Effect → Machine D × List Effect
  dispatch m (Mk3.button_event evt) = with_device m (button_event f m.device evt)
  dispatch m (Mk3.rotary_event evt) = with_device m (m.device, rotary_event f m.device evt)
  dispatch m (Mk3.als_value_changed v) = with_device m (als_value_changed f m.device (of_sensor v))
  dispatch m (pwm n) = (m, pwm n ∷ [])
  dispatch m Mk3.sync = (m, Mk3.sync ∷ [])
  dispatch m (Mk3.system cmd) = (m, Mk3.system cmd ∷ [])

  dispatches : Machine D → List Effect → Machine D × List Effect
  dispatches m [] = (m, [])
  dispatches m (e ∷ es) =
      let (m₁, first) = dispatch m e in let (m₂, rest) = dispatches m₁ es in (m₂, first ++ rest)

  unfoldable pub interrupt : Machine D → Interrupt → Machine D × List Effect
  unfolding dispatches dispatch with_device performed perform of_sensor
  interrupt m (button_readable s) = dispatches m (Mk3.generate_button_event s)
  interrupt m (rotary_readable s) = dispatches m (Mk3.generate_rotary_event s)
  interrupt m (samples raw) =
      let (h, effects) = Mk3.timer_event m.hardware raw in
      dispatches (record m { hardware = h }) effects
