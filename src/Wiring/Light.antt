-- ===== src/Wiring/Light.antt =====
-- What the backlight was last told, and what its control holds.
use digital_rooster_gui.Base.{
  ℕ, zero, suc, ◌≡◌, refl, ap, ◌∙◌, Bool, List, [], ◌∷◌, ◌++◌, map, arith,
}
use digital_rooster_gui.Base.Int.{ℤ}
use digital_rooster_gui.Double.{Double}
use digital_rooster_gui.Alarm.{Alarm}
use digital_rooster_gui.Power
use digital_rooster_gui.Monitor
use digital_rooster_gui.VolumeButton
use digital_rooster_gui.Brightness
use digital_rooster_gui.Brightness.{BrightnessControl, AlsValue}
use digital_rooster_gui.Wiring
use digital_rooster_gui.Wiring.{
  Device, Output, player, to_hardware, power_signal, power_signals, power_call, alarm_triggered,
  player_error, released,
}

-- What the hardware shows after the outputs, if it showed `v` before.
abbrev pub shown : ℤ → List Output → ℤ
shown v [] = v
shown v (Wiring.set_backlight b ∷ os) = shown b os
shown v (player c ∷ os) = shown v os
shown v (Wiring.player_stop ∷ os) = shown v os
shown v (Wiring.increment_volume n ∷ os) = shown v os
shown v (Wiring.system_reboot ∷ os) = shown v os
shown v (Wiring.system_poweroff ∷ os) = shown v os

pub shown-append : (v : ℤ) (os ps : List Output) → shown v (os ++ ps) ≡ shown (shown v os) ps
shown-append v [] ps = refl
shown-append v (Wiring.set_backlight b ∷ os) ps = shown-append b os ps
shown-append v (player c ∷ os) ps = shown-append v os ps
shown-append v (Wiring.player_stop ∷ os) ps = shown-append v os ps
shown-append v (Wiring.increment_volume n ∷ os) ps = shown-append v os ps
shown-append v (Wiring.system_reboot ∷ os) ps = shown-append v os ps
shown-append v (Wiring.system_poweroff ∷ os) ps = shown-append v os ps

to_hardware-append :
    (ss ts : List Brightness.Signal) → to_hardware (ss ++ ts) ≡ to_hardware ss ++ to_hardware ts
unfolding to_hardware
to_hardware-append [] ts = refl
to_hardware-append (Brightness.set_backlight b ∷ ss) ts =
    ap (λ os. Wiring.set_backlight b ∷ os) (to_hardware-append ss ts)
to_hardware-append (Brightness.brightness_changed b ∷ ss) ts =
    ap (λ os. Wiring.set_backlight b ∷ os) (to_hardware-append ss ts)
to_hardware-append (Brightness.active_brightness_changed b ∷ ss) ts = to_hardware-append ss ts
to_hardware-append (Brightness.standby_brightness_changed b ∷ ss) ts = to_hardware-append ss ts
to_hardware-append (Brightness.adaptive_mode_changed b ∷ ss) ts = to_hardware-append ss ts

commands-shown : (v : ℤ) (cs : List Monitor.Command) → shown v (map (λ c. player c) cs) ≡ v
commands-shown v [] = refl
commands-shown v (c ∷ cs) = commands-shown v cs

module _ {D : Type 0} (f : Double D) where
  -- If the hardware showed what the control held, it does after the outputs.
  abbrev pub Tells : Device D → Device D × List Output → Type 0
  Tells d (e, os) = shown d.brightness.current_brightness os ≡ e.brightness.current_brightness

  abbrev pub TellsHardware :
      BrightnessControl D → BrightnessControl D × List Brightness.Signal → Type 0
  TellsHardware b (c, ss) = shown b.current_brightness (to_hardware ss) ≡ c.current_brightness

  set_active-TellsHardware :
      (b : BrightnessControl D) (on : Bool) → TellsHardware b (Brightness.set_active f b on)
  unfolding Brightness.set_active Brightness.update_backlight to_hardware
  set_active-TellsHardware b on = ground arith

  pub requests_tell :
      (b : BrightnessControl D) (on : Bool) (n : ℤ)
      → TellsHardware b (Brightness.set_adaptive_mode f b on)
        × TellsHardware b (Brightness.set_active_brightness f b n)
        × TellsHardware b (Brightness.set_standby_brightness f b n)
  unfolding Brightness.set_adaptive_mode Brightness.set_active_brightness
      Brightness.set_standby_brightness Brightness.update_backlight to_hardware
  requests_tell b on n = (ground arith, ground arith, ground arith)

  reading-TellsHardware :
      (b : BrightnessControl D) (v : AlsValue D)
      → TellsHardware b (Brightness.als_value_changed f b v)
  unfolding Brightness.als_value_changed Brightness.update_backlight to_hardware
  reading-TellsHardware b v = refl

  pub deliver-TellsHardware :
      (n : ℕ) (b : BrightnessControl D) (v : AlsValue D)
      → TellsHardware b (Brightness.deliver f n b v)
  unfolding Brightness.deliver to_hardware
  deliver-TellsHardware zero b v = refl
  deliver-TellsHardware (suc n) b v =
      let (c, first) = Brightness.als_value_changed f b v in
      let rest = (Brightness.deliver f n c v).1 in
      ap (λ os. shown b.current_brightness os) (to_hardware-append first rest)
      ∙ shown-append b.current_brightness (to_hardware first) (to_hardware rest)
      ∙ ap (λ w. shown w (to_hardware rest)) (reading-TellsHardware b v)
      ∙ deliver-TellsHardware n c v

  power_signal-Tells : (d : Device D) (s : Power.Signal) → Tells d (power_signal f d s)
  unfolding power_signal
  power_signal-Tells d (Power.active_changed b) = set_active-TellsHardware d.brightness b
  power_signal-Tells d Power.going_in_standby = refl
  power_signal-Tells d Power.shutdown_request = refl
  power_signal-Tells d Power.reboot_request = refl
  power_signal-Tells d Power.becoming_active = refl
  power_signal-Tells d (Power.power_state_changed s) = refl

  power_signals-Tells : (d : Device D) (ss : List Power.Signal) → Tells d (power_signals f d ss)
  unfolding power_signals
  power_signals-Tells d [] = refl
  power_signals-Tells d (s ∷ ss) =
      let (e, first) = power_signal f d s in
      let rest = (power_signals f e ss).1 in
      shown-append d.brightness.current_brightness first rest
      ∙ ap (λ w. shown w rest) (power_signal-Tells d s)
      ∙ power_signals-Tells e ss

  pub power_call-Tells : (d : Device D) (c : Power.Call) → Tells d (power_call f d c)
  unfolding power_call
  power_call-Tells d c =
      power_signals-Tells (record d { power = (Power.step d.power c).0 }) (Power.step d.power c).1

  pub rung-Tells : (d : Device D) (a : Alarm) → Tells d (alarm_triggered f d a)
  unfolding alarm_triggered
  rung-Tells d a =
      let (monitor, commands) = Monitor.alarm_triggered d.monitor a in
      let e : Device D = record d { monitor = monitor } in
      shown-append d.brightness.current_brightness (map (λ c. player c) commands)
        (power_call f e Power.activates).1
      ∙ ap (λ w. shown w (power_call f e Power.activates).1)
          (commands-shown d.brightness.current_brightness commands)
      ∙ power_call-Tells e Power.activates

  pub player_error-Tells : (d : Device D) (e : Bool) → Tells d (player_error f d e)
  unfolding player_error
  player_error-Tells d e =
      commands-shown d.brightness.current_brightness (Monitor.player_error d.monitor e).1

  pub released-Tells : (d : Device D) (ss : List VolumeButton.Signal) → Tells d (released f d ss)
  unfolding released
  released-Tells d [] = refl
  released-Tells d (VolumeButton.button_released ∷ ss) = power_call-Tells d Power.toggles
  released-Tells d (VolumeButton.button_pressed ∷ ss) = released-Tells d ss
  released-Tells d (VolumeButton.volume_incremented n ∷ ss) = released-Tells d ss
