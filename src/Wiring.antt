-- ===== src/Wiring.antt =====
-- The connections of qtgui/main.cpp between the power control, the alarm monitor, the sleep timer,
-- the backlight and the volume button. A slot runs when its signal is emitted, the slots of one
-- signal in the order of their connection. What goes to the player and to the hardware is output;
-- the player's own signals are steps of their own.
pub mod Calls
pub mod Light
pub mod Standby
pub mod Stores
pub mod Machine
pub mod Ringing
pub mod Remote
use digital_rooster_gui.Base.{Bool, true, false, List, [], ◌∷◌, ◌++◌, map}
use digital_rooster_gui.Base.Int.{ℤ}
use digital_rooster_gui.Double.{Double}
use digital_rooster_gui.Alarm.{Alarm}
use digital_rooster_gui.Power
use digital_rooster_gui.Power.{PowerState}
use digital_rooster_gui.Monitor
use digital_rooster_gui.Monitor.{AlarmMonitor}
use digital_rooster_gui.SleepTimer
use digital_rooster_gui.SleepTimer.{SleepTimer, PlaybackState}
use digital_rooster_gui.VolumeButton
use digital_rooster_gui.VolumeButton.{VolumeButton, InputEvent}
use digital_rooster_gui.Brightness
use digital_rooster_gui.Brightness.{BrightnessControl, AlsValue}

pub data Output : Type 0 where
  player : Monitor.Command → Output
  player_stop : Output
  increment_volume : ℤ → Output
  set_backlight : ℤ → Output
  system_reboot system_poweroff : Output

pub record Device (D : Type 0) : Type 0 where
  pub power : PowerState
  pub monitor : AlarmMonitor
  pub sleep : SleepTimer
  pub brightness : BrightnessControl D
  pub button : VolumeButton

-- The backlight control calls the hardware itself, and its brightness_changed is connected to it.
pub to_hardware : List Brightness.Signal → List Output
to_hardware [] = []
to_hardware (Brightness.set_backlight b ∷ ss) = set_backlight b ∷ to_hardware ss
to_hardware (Brightness.brightness_changed b ∷ ss) = set_backlight b ∷ to_hardware ss
to_hardware (Brightness.active_brightness_changed b ∷ ss) = to_hardware ss
to_hardware (Brightness.standby_brightness_changed b ∷ ss) = to_hardware ss
to_hardware (Brightness.adaptive_mode_changed b ∷ ss) = to_hardware ss

to_player : List VolumeButton.Signal → List Output
to_player [] = []
to_player (VolumeButton.volume_incremented n ∷ ss) = increment_volume n ∷ to_player ss
to_player (VolumeButton.button_pressed ∷ ss) = to_player ss
to_player (VolumeButton.button_released ∷ ss) = to_player ss

module _ {D : Type 0} (f : Double D) where
  -- The slots of one signal of the power control.
  power_signal : Device D → Power.Signal → Device D × List Output
  power_signal d (Power.active_changed b) =
      let (brightness, ss) = Brightness.set_active f d.brightness b in
      (
        record d {
          brightness = brightness;
          button = VolumeButton.monitor_rotary_button d.button b;
        },
        to_hardware ss,
      )
  power_signal d Power.going_in_standby =
      (record d { monitor = Monitor.stop d.monitor }, player_stop ∷ [])
  power_signal d Power.shutdown_request = (d, system_poweroff ∷ [])
  power_signal d Power.reboot_request = (d, system_reboot ∷ [])
  power_signal d Power.becoming_active = (d, [])
  power_signal d (Power.power_state_changed s) = (d, [])

  unfoldable pub power_signals : Device D → List Power.Signal → Device D × List Output
  unfolding power_signal to_hardware
  power_signals d [] = (d, [])
  power_signals d (s ∷ ss) =
      let (d', first) = power_signal d s in
      let (d'', rest) = power_signals d' ss in (d'', first ++ rest)

  -- A slot of the power control with all that follows.
  unfoldable pub power_call : Device D → Power.Call → Device D × List Output
  power_call d c =
      let (power, ss) = Power.step d.power c in power_signals (record d { power = power }) ss

  -- The slots of alarm_triggered: the monitor's, the power control's and the sleep timer's.
  unfoldable pub alarm_triggered : Device D → Alarm → Device D × List Output
  alarm_triggered d a =
      let (monitor, commands) = Monitor.alarm_triggered d.monitor a in
      let (d', outputs) = power_call (record d { monitor = monitor }) Power.activates in
      (
        record d' { sleep = (SleepTimer.alarm_triggered d'.sleep a).0 },
        map (λ c. player c) commands ++ outputs,
      )

  unfoldable pub sleep_timer_elapsed : Device D → Device D × List Output
  sleep_timer_elapsed d =
      power_call (record d { sleep = (SleepTimer.elapsed d.sleep).0 }) Power.standbys

  unfoldable pub playback_state_changed : Device D → PlaybackState → Device D
  playback_state_changed d p = record d { sleep = (SleepTimer.playback_state_changed d.sleep p).0 }

  unfoldable pub player_error : Device D → Bool → Device D × List Output
  player_error d is_error =
      let (monitor, commands) = Monitor.player_error d.monitor is_error in
      (record d { monitor = monitor }, map (λ c. player c) commands)

  unfoldable pub monitor_timeout : Device D → Device D
  monitor_timeout d = record d { monitor = Monitor.timer_elapsed d.monitor }

  -- The slots of button_released.
  unfoldable pub released : Device D → List VolumeButton.Signal → Device D × List Output
  released d [] = (d, [])
  released d (VolumeButton.button_released ∷ ss) = power_call d Power.toggles
  released d (VolumeButton.button_pressed ∷ ss) = released d ss
  released d (VolumeButton.volume_incremented n ∷ ss) = released d ss

  unfoldable pub button_event : Device D → InputEvent → Device D × List Output
  unfolding released
  button_event d evt = released d (VolumeButton.process_key_event d.button evt)

  unfoldable pub rotary_event : Device D → InputEvent → List Output
  unfolding to_player
  rotary_event d evt = to_player (VolumeButton.process_rotary_event d.button evt)

  -- Once for each connection: main makes one, and the requests for the adaptive mode more.
  unfoldable pub als_value_changed : Device D → AlsValue D → Device D × List Output
  unfolding to_hardware
  als_value_changed d v =
      let (brightness, ss) = Brightness.deliver f d.brightness.subscriptions d.brightness v in
      (record d { brightness = brightness }, to_hardware ss)

  -- main: the parts as they are constructed, and the call of standby.
  unfoldable pub start_up : ℤ → BrightnessControl D → Device D × List Output
  start_up timeout brightness =
      power_call
        (record {
          power = Power.init;
          monitor = Monitor.init;
          sleep = SleepTimer.init timeout;
          brightness = record brightness { standby = true; subscriptions = 1 };
          button = VolumeButton.init;
        })
        Power.standbys
