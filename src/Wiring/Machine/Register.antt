-- ===== src/Wiring/Machine/Register.antt =====
-- What is written to the PWM register, and reads that fail.
use digital_rooster_gui.Base.{
  ℕ, ◌≤◌, ◌≡◌, refl, String, List, [], ◌∷◌, ◌++◌, map, All, All-append, arith, Bool-cases, inl, inr,
}
use digital_rooster_gui.Base.Int.{ℤ, pos, ◌≤ℤ◌}
use digital_rooster_gui.Double.{Double, clamp}
use digital_rooster_gui.Brightness.{AlsValue}
use digital_rooster_gui.VolumeButton
use digital_rooster_gui.Hardware.{pwm_val, pwm_val_range, pwm_val_antitone}
use digital_rooster_gui.Hardware.Sensor.{Raw, read_als_sensor}
use digital_rooster_gui.Hardware.Mk3
use digital_rooster_gui.Hardware.Mk3.{HardwareControl, Read, Effect, pwm}
use digital_rooster_gui.Wiring
use digital_rooster_gui.Wiring.{Output}
use digital_rooster_gui.Wiring.Machine.{
  Machine, Interrupt, button_readable, rotary_readable, samples, perform, performed, dispatch,
  dispatches, with_device, interrupt,
}

-- The register is within 3 and 253, and its value is that of a brightness.
abbrev pub InRange : Effect → Type 0
InRange (pwm n) = (3 ≤ n) × (n ≤ 253) × ((b : ℤ) × (n ≡ pwm_val b))
InRange (Mk3.button_event evt) = Unit
InRange (Mk3.rotary_event evt) = Unit
InRange (Mk3.als_value_changed v) = Unit
InRange Mk3.sync = Unit
InRange (Mk3.system cmd) = Unit

set_backlight-InRange : (h : HardwareControl) (b : ℤ) → All InRange (Mk3.set_backlight h b)
unfolding Mk3.set_backlight
set_backlight-InRange h b = elim (Bool-cases h.backlight_pwm) [
  | inl e ↦ rw (Mk3.set_backlight, e) (((pwm_val_range b).0, (pwm_val_range b).1, (b, refl)), tt)
  | inr e ↦ rw (Mk3.set_backlight, e) tt
]

shut-InRange :
    (h : HardwareControl) (cmd : String)
    → All InRange (Mk3.sync ∷ Mk3.set_backlight h (pos 0) ++ Mk3.system cmd ∷ [])
shut-InRange h cmd = (
  tt,
  All-append InRange (Mk3.set_backlight h (pos 0)) _ (set_backlight-InRange h (pos 0)) (tt, tt),
)

perform-InRange : (h : HardwareControl) (o : Output) → All InRange (perform h o)
unfolding perform Mk3.system_reboot Mk3.system_poweroff
perform-InRange h (Wiring.set_backlight b) = set_backlight-InRange h b
perform-InRange h Wiring.system_reboot = shut-InRange h "/sbin/reboot -d 2"
perform-InRange h Wiring.system_poweroff = shut-InRange h "/sbin/poweroff -d 2"
perform-InRange h (Wiring.player c) = tt
perform-InRange h Wiring.player_stop = tt
perform-InRange h (Wiring.increment_volume n) = tt

performed-InRange : (h : HardwareControl) (os : List Output) → All InRange (performed h os)
unfolding performed
performed-InRange h [] = tt
performed-InRange h (o ∷ os) =
    All-append InRange (perform h o) _ (perform-InRange h o) (performed-InRange h os)

values-InRange : (vs : List (AlsValue ℕ)) → All InRange (map (λ v. Mk3.als_value_changed v) vs)
values-InRange [] = tt
values-InRange (v ∷ vs) = (tt, values-InRange vs)

timer-InRange : (h : HardwareControl) (raw : Raw) → All InRange (Mk3.timer_event h raw).1
unfolding Mk3.timer_event
timer-InRange h raw = elim (Bool-cases h.sampling) [
  | inl e ↦ rw e (values-InRange (read_als_sensor h.sensor raw).1)
  | inr e ↦ rw e tt
]

module _ {D : Type 0} (f : Double D) where
  dispatch-InRange : (m : Machine D) (e : Effect) → InRange e → All InRange (dispatch f m e).1
  unfolding dispatch with_device
  dispatch-InRange m (Mk3.button_event evt) h = performed-InRange m.hardware _
  dispatch-InRange m (Mk3.rotary_event evt) h = performed-InRange m.hardware _
  dispatch-InRange m (Mk3.als_value_changed v) h = performed-InRange m.hardware _
  dispatch-InRange m (pwm n) h = (h, tt)
  dispatch-InRange m Mk3.sync h = (tt, tt)
  dispatch-InRange m (Mk3.system cmd) h = (tt, tt)

  dispatches-InRange :
      (m : Machine D) (es : List Effect) → All InRange es → All InRange (dispatches f m es).1
  unfolding dispatches
  dispatches-InRange m [] h = tt
  dispatches-InRange m (e ∷ es) h =
      All-append InRange (dispatch f m e).1 _ (dispatch-InRange m e h.0)
        (dispatches-InRange (dispatch f m e).0 es h.1)

  effects-InRange : (m : Machine D) (i : Interrupt) → All InRange (interrupt f m i).1
  unfolding interrupt Mk3.generate_button_event Mk3.generate_rotary_event
  effects-InRange m (button_readable s) =
      dispatches-InRange m (Mk3.generate_button_event s) (tt, tt)
  effects-InRange m (rotary_readable s) =
      dispatches-InRange m (Mk3.generate_rotary_event s) (tt, tt)
  effects-InRange m (samples raw) =
      dispatches-InRange (record m { hardware = (Mk3.timer_event m.hardware raw).0 })
        (Mk3.timer_event m.hardware raw).1 (timer-InRange m.hardware raw)

  -- Whatever the hardware reports and whatever state the device is in, the PWM register is written
  -- only with values from 3 to 253 that belong to a brightness; a brighter one never has a greater
  -- value, and the brightest and the darkest have 3 and 253.
  pub interrupt-InRange :
      (m : Machine D) (i : Interrupt)
      → All InRange (interrupt f m i).1
        × ((b c : ℤ) → b ≤ℤ c → pwm_val c ≤ pwm_val b)
        × (pwm_val (pos 100) ≡ 3)
        × (pwm_val (pos 1) ≡ 253)
  unfolding pwm_val clamp
  interrupt-InRange m i = (effects-InRange m i, pwm_val_antitone, refl, refl)

  -- A read of the button or of the knob that fails, or finds nothing, changes nothing and has no
  -- effect.
  pub faults_silent :
      (m : Machine D)
      → (interrupt f m (button_readable Mk3.error) ≡ (m, []))
        × (interrupt f m (rotary_readable Mk3.error) ≡ (m, []))
        × (interrupt f m (button_readable Mk3.end_of_file) ≡ (m, []))
        × (interrupt f m (rotary_readable Mk3.end_of_file) ≡ (m, []))
  unfolding interrupt Mk3.generate_button_event Mk3.generate_rotary_event Mk3.read_event
      Wiring.button_event Wiring.rotary_event VolumeButton.process_key_event
      VolumeButton.process_rotary_event
  faults_silent m = (refl, ground arith, refl, ground arith)
