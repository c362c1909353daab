-- ===== src/Wiring/Calls.antt =====
-- What the calls of the power control do to the whole device.
use digital_rooster_gui.Base.{
  ◌⊎◌, inl, inr, ◌≡◌, refl, Bool, true, false, not, List, [], ◌∷◌, some, arith,
}
use digital_rooster_gui.Double.{Double}
use digital_rooster_gui.Alarm.{Alarm}
use digital_rooster_gui.Power
use digital_rooster_gui.Power.Signals.{is_on}
use digital_rooster_gui.Monitor
use digital_rooster_gui.SleepTimer
use digital_rooster_gui.SleepTimer.{PlaybackState, minutes}
use digital_rooster_gui.VolumeButton
use digital_rooster_gui.VolumeButton.{InputEvent}
use digital_rooster_gui.Brightness
use digital_rooster_gui.Brightness.{BrightnessControl, AlsValue}
use digital_rooster_gui.Wiring.{
  released, Device, Output, player, power_signals, power_call, alarm_triggered,
}

module _ {D : Type 0} (f : Double D) where
  -- The backlight and the knob follow the power control, and no alarm is watched in standby.
  pub record IsConsistent (d : Device D) : Type 0 where
    pub light : d.brightness.standby ≡ not (is_on d.power)
    pub knob : d.button.enable_volume_changes ≡ is_on d.power
    pub quiet :
        (d.power ≡ Power.active)
        ⊎ ((d.power ≡ Power.PowerState.standby)
            × (d.monitor ≡ record { state = Monitor.idle; timer_active = false }))

  set_active-standby :
      (b : BrightnessControl D) (on : Bool) → (Brightness.set_active f b on).0.standby ≡ not on
  unfolding Brightness.set_active Brightness.update_backlight
  set_active-standby b on = ground arith

  -- Whatever the state before, going to standby and becoming active make the device consistent.
  pub standby_call :
      (d : Device D) (s : Power.PowerState)
      → d.power ≡ s
      → IsConsistent (power_call f d Power.standbys).0
  unfolding power_call power_signals Power.step Power.go_standby Monitor.stop
      VolumeButton.monitor_rotary_button
  standby_call d Power.active e = rw e (record {
    light = set_active-standby d.brightness false;
    knob = refl;
    quiet = inr (refl, refl);
  })
  standby_call d Power.PowerState.standby e = rw e (record {
    light = set_active-standby d.brightness false;
    knob = refl;
    quiet = inr (refl, refl);
  })

  pub active_call :
      (d : Device D) (s : Power.PowerState)
      → d.power ≡ s
      → IsConsistent (power_call f d Power.activates).0
  unfolding power_call power_signals Power.step Power.activate VolumeButton.monitor_rotary_button
  active_call d Power.active e =
      rw e (record { light = set_active-standby d.brightness true; knob = refl; quiet = inl refl })
  active_call d Power.PowerState.standby e =
      rw e (record { light = set_active-standby d.brightness true; knob = refl; quiet = inl refl })

  toggle_call :
      (d : Device D) (s : Power.PowerState)
      → d.power ≡ s
      → IsConsistent (power_call f d Power.toggles).0
  unfolding power_call power_signals Power.step Power.toggle_power_state Monitor.stop
      VolumeButton.monitor_rotary_button
  toggle_call d Power.active e = rw e (record {
    light = set_active-standby d.brightness false;
    knob = refl;
    quiet = inr (refl, refl);
  })
  toggle_call d Power.PowerState.standby e =
      rw e (record { light = set_active-standby d.brightness true; knob = refl; quiet = inl refl })

  pub power_call-IsConsistent :
      (d : Device D) (c : Power.Call) → IsConsistent d → IsConsistent (power_call f d c).0
  unfolding power_call power_signals Power.step Power.power_off Power.reboot
  power_call-IsConsistent d Power.toggles i = toggle_call d d.power refl
  power_call-IsConsistent d Power.standbys i = standby_call d d.power refl
  power_call-IsConsistent d Power.activates i = active_call d d.power refl
  power_call-IsConsistent d Power.power_offs i = i
  power_call-IsConsistent d Power.reboots i = i

  pub released-IsConsistent :
      (d : Device D) (ss : List VolumeButton.Signal)
      → IsConsistent d
      → IsConsistent (released f d ss).0
  unfolding released
  released-IsConsistent d [] i = i
  released-IsConsistent d (VolumeButton.button_released ∷ ss) i =
      power_call-IsConsistent d Power.toggles i
  released-IsConsistent d (VolumeButton.button_pressed ∷ ss) i = released-IsConsistent d ss i
  released-IsConsistent d (VolumeButton.volume_incremented n ∷ ss) i = released-IsConsistent d ss i

  woken :
      (d : Device D) (s : Power.PowerState)
      → d.power ≡ s
      → ((power_call f d Power.activates).0.power ≡ Power.active)
        × ((power_call f d Power.activates).0.monitor ≡ d.monitor)
        × ((power_call f d Power.activates).0.sleep ≡ d.sleep)
  unfolding power_call power_signals Power.step Power.activate
  woken d Power.active e = (rw e refl, rw e refl, rw e refl)
  woken d Power.PowerState.standby e = (rw e refl, rw e refl, rw e refl)

  -- In whatever state an alarm finds the device, it is active afterwards, with the backlight and
  -- the knob following; the player was told to play the alarm at its volume, the monitor is armed
  -- with its timer running, and the sleep timer runs for the timeout of the alarm.
  pub alarm_wakes :
      (d : Device D) (a : Alarm)
      → let r = alarm_triggered f d a in
        (r.0.power ≡ Power.active)
        × (r.0.brightness.standby ≡ false)
        × (r.0.button.enable_volume_changes ≡ true)
        × (r.0.monitor ≡ record { state = Monitor.armed; timer_active = true })
        × (r.0.sleep.remaining ≡ some (minutes a.timeout))
        × ((rest : List Output) × (r.1
              ≡ player (Monitor.set_media a.media_url)
                ∷ player (Monitor.set_volume a.volume)
                ∷ player Monitor.play
                ∷ rest))
  unfolding alarm_triggered Monitor.alarm_triggered SleepTimer.alarm_triggered
  alarm_wakes d a =
      let rung : Device D = record d { monitor = (Monitor.alarm_triggered d.monitor a).0 } in
      let (on, monitor, sleep) = woken rung d.power refl in
      let j = active_call rung d.power refl in
      (
        on,
        rw (j.light, on) refl,
        rw (j.knob, on) refl,
        monitor,
        refl,
        ((power_call f rung Power.activates).1, refl),
      )
