-- ===== src/Hardware/Mk3.antt =====
-- HardwareControlMk3 of libsrc/hardwarecontrol_mk3.cpp, but for the sensor's readings. Which files
-- open is given by their paths; a stream that failed to open fails from then on.
use digital_rooster_gui.Base.{
  ℕ, String, Bool, false, ◌&&◌, List, [], ◌∷◌, ◌++◌, map, append, str_eq, if◌then◌else◌,
}
use digital_rooster_gui.Base.Int.{ℤ, pos}
use digital_rooster_gui.Brightness.{AlsValue}
use digital_rooster_gui.VolumeButton.{InputEvent}
use digital_rooster_gui.Hardware.{pwm_val}
use digital_rooster_gui.Hardware.Paths.{HardwareConfiguration}
use digital_rooster_gui.Hardware.Sensor.{Sensor, Raw, read_als_sensor}

-- `button_notifier` and `rotary_notifier` say whether there is one, `backlight_pwm` whether the
-- stream is open and good, `sampling` whether the timer runs.
pub record HardwareControl : Type 0 where
  pub button_notifier : Bool
  pub rotary_notifier : Bool
  pub backlight_pwm : Bool
  pub sensor : Sensor
  pub sampling : Bool

-- Signals, what is written to the PWM register, and the calls of the system.
pub data Effect : Type 0 where
  button_event rotary_event : InputEvent → Effect
  als_value_changed : AlsValue ℕ → Effect
  pwm : ℕ → Effect
  sync : Effect
  system : String → Effect

-- read: an error, the end of the file, or an event.
pub data Read : Type 0 where
  error end_of_file : Read
  input : InputEvent → Read

unfoldable pub read_event : Read → InputEvent
read_event error = record { code = 0; value = pos 0; type = 0 }
read_event end_of_file = record { code = 0; value = pos 0; type = 0 }
read_event (input evt) = evt

unfoldable pub generate_button_event : Read → List Effect
generate_button_event s = button_event (read_event s) ∷ []

unfoldable pub generate_rotary_event : Read → List Effect
generate_rotary_event s = rotary_event (read_event s) ∷ []

unfoldable pub set_backlight : HardwareControl → ℤ → List Effect
set_backlight h brightness_in = if h.backlight_pwm then pwm (pwm_val brightness_in) ∷ [] else []

unfoldable pub system_reboot : HardwareControl → List Effect
system_reboot h = sync ∷ set_backlight h (pos 0) ++ system "/sbin/reboot -d 2" ∷ []

unfoldable pub system_poweroff : HardwareControl → List Effect
system_poweroff h = sync ∷ set_backlight h (pos 0) ++ system "/sbin/poweroff -d 2" ∷ []

unfoldable pub als_sensor_available : HardwareControl → Bool
als_sensor_available h = h.sensor.als_sensor_ok

-- The event of the sampling timer.
unfoldable pub timer_event : HardwareControl → Raw → HardwareControl × List Effect
timer_event h raw =
    if h.sampling
    then (let (sensor, values) = read_als_sensor h.sensor raw in
        (record h { sensor = sensor }, map (λ v. als_value_changed v) values))
    else (h, [])

-- open_file_handle; `false` is one of its exceptions.
unfoldable pub open_file_handle : (String → Bool) → String → Bool
open_file_handle opens path = if str_eq path "" then false else opens path

-- The four streams are opened in this order, up to the first that fails.
open_sensor : (String → Bool) → String → Sensor
open_sensor opens path =
    let red = opens (append path "in_intensity_red_raw") in
    let green = red && opens (append path "in_intensity_green_raw") in
    let blue = green && opens (append path "in_intensity_blue_raw") in
    let clear = blue && opens (append path "in_intensity_clear_raw") in
    record {
      als_red = red;
      als_green = green;
      als_blue = blue;
      als_clear = clear;
      als_sensor_ok = clear;
    }

unfoldable pub construct : (String → Bool) → HardwareConfiguration → HardwareControl × List Effect
unfolding open_sensor
construct opens cfg =
    let sensor = open_sensor opens cfg.sys_als_path in
    let h : HardwareControl = record {
      button_notifier = open_file_handle opens cfg.dev_push_button_event_path;
      rotary_notifier = open_file_handle opens cfg.dev_rotary_event_path;
      backlight_pwm = opens cfg.sys_backlight_path;
      sensor = sensor;
      sampling = sensor.als_sensor_ok;
    } in
    (h, set_backlight h (pos 30))
