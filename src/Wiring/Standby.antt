-- ===== src/Wiring/Standby.antt =====
-- What holds of the whole device in every state that it can reach.
use digital_rooster_gui.Base.{
  ◌∙◌, ap, List, [], ◌++◌, ℕ, zero, suc, inl, inr, ◌≡◌, refl, Bool, true, false, arith,
}
use digital_rooster_gui.Base.Int.{ℤ, pos}
use digital_rooster_gui.Double.{Double}
use digital_rooster_gui.Alarm.{Alarm}
use digital_rooster_gui.Power
use digital_rooster_gui.Monitor
use digital_rooster_gui.SleepTimer
use digital_rooster_gui.SleepTimer.{PlaybackState, minutes}
use digital_rooster_gui.VolumeButton
use digital_rooster_gui.VolumeButton.{InputEvent}
use digital_rooster_gui.Brightness
use digital_rooster_gui.Brightness.{BrightnessControl, AlsValue}
use digital_rooster_gui.Wiring.{
  Device, Output, to_hardware, power_call, alarm_triggered, sleep_timer_elapsed,
  playback_state_changed, player_error, monitor_timeout, button_event, als_value_changed, start_up,
}
use digital_rooster_gui.Wiring.Calls.{
  IsConsistent, standby_call, active_call, power_call-IsConsistent, released-IsConsistent,
}
use digital_rooster_gui.Wiring.Light.{
  shown, shown-append, Tells, requests_tell, deliver-TellsHardware, power_call-Tells, rung-Tells,
  player_error-Tells, released-Tells,
}

module _ {D : Type 0} (f : Double D) where
  abbrev resting : Monitor.AlarmMonitor
  resting = record { state = Monitor.idle; timer_active = false }

  resting_error : (e : Bool) → (Monitor.player_error resting e).0 ≡ resting
  unfolding Monitor.player_error
  resting_error e = ground arith

  resting_elapsed : Monitor.timer_elapsed resting ≡ resting
  unfolding Monitor.timer_elapsed
  resting_elapsed = refl

  deliver-standby :
      (n : ℕ) (b : BrightnessControl D) (v : AlsValue D)
      → (Brightness.deliver f n b v).0.standby ≡ b.standby
  unfolding Brightness.deliver Brightness.als_value_changed Brightness.update_backlight
      Brightness.filter_sensor
  deliver-standby zero b v = refl
  deliver-standby (suc n) b v = deliver-standby n (Brightness.als_value_changed f b v).0 v

  requests-standby :
      (b : BrightnessControl D) (on : Bool) (n : ℤ)
      → ((Brightness.set_adaptive_mode f b on).0.standby ≡ b.standby)
        × ((Brightness.set_active_brightness f b n).0.standby ≡ b.standby)
        × ((Brightness.set_standby_brightness f b n).0.standby ≡ b.standby)
  unfolding Brightness.set_adaptive_mode Brightness.set_active_brightness
      Brightness.set_standby_brightness Brightness.update_backlight
  requests-standby b on n = (ground arith, ground arith, ground arith)

  abbrev with_brightness : Device D → BrightnessControl D → Device D
  with_brightness d b = record d { brightness = b }

  abbrev pub requested :
      Device D → BrightnessControl D × List Brightness.Signal → Device D × List Output
  requested d (b, ss) = (with_brightness d b, to_hardware ss)

  lit :
      (d : Device D) (b : BrightnessControl D)
      → b.standby ≡ d.brightness.standby
      → IsConsistent f d
      → IsConsistent f (with_brightness d b)
  lit d b same i = record { light = same ∙ i.light; knob = i.knob; quiet = i.quiet }

  -- What can happen to a device, and what it puts out; the requests come from the user interface.
  pub data Step : Device D → Device D × List Output → Type 0 where
    rings : (d : Device D) (a : Alarm) → Step d (alarm_triggered f d a)
    sleeps : (d : Device D) → Step d (sleep_timer_elapsed f d)
    plays : (d : Device D) (p : PlaybackState) → Step d (playback_state_changed f d p, [])
    fails : (d : Device D) (e : Bool) → Step d (player_error f d e)
    gives_up : (d : Device D) → Step d (monitor_timeout f d, [])
    presses : (d : Device D) (evt : InputEvent) → Step d (button_event f d evt)
    senses : (d : Device D) (v : AlsValue D) → Step d (als_value_changed f d v)
    adapts :
        (d : Device D) (on : Bool)
        → Step d (requested d (Brightness.set_adaptive_mode f d.brightness on))
    lights :
        (d : Device D) (n : ℤ)
        → Step d (requested d (Brightness.set_active_brightness f d.brightness n))
    dims :
        (d : Device D) (n : ℤ)
        → Step d (requested d (Brightness.set_standby_brightness f d.brightness n))
    calls : (d : Device D) (c : Power.Call) → Step d (power_call f d c)

  -- The devices that can be reached, with all outputs so far.
  pub data Reach (t : ℤ) (b : BrightnessControl D) : Device D → List Output → Type 0 where
    start : Reach t b (start_up f t b).0 (start_up f t b).1
    next :
        {d e : Device D} {os ps : List Output}
        → Reach t b d os
        → Step d (e, ps)
        → Reach t b e (os ++ ps)

  Step-IsConsistent :
      {d : Device D} {r : Device D × List Output} → Step d r → IsConsistent f d → IsConsistent f r.0
  unfolding alarm_triggered sleep_timer_elapsed playback_state_changed player_error monitor_timeout
      button_event als_value_changed
  Step-IsConsistent (rings d a) i =
      let rung : Device D = record d { monitor = (Monitor.alarm_triggered d.monitor a).0 } in
      let j = active_call f rung d.power refl in
      record { light = j.light; knob = j.knob; quiet = j.quiet }
  Step-IsConsistent (sleeps d) i =
      standby_call f (record d { sleep = (SleepTimer.elapsed d.sleep).0 }) d.power refl
  Step-IsConsistent (plays d p) i = record { light = i.light; knob = i.knob; quiet = i.quiet }
  Step-IsConsistent (fails d e) i = record {
    light = i.light;
    knob = i.knob;
    quiet = elim i.quiet [
      | inl on ↦ inl on
      | inr (off, rests) ↦ inr (off, rw rests (resting_error e))
    ];
  }
  Step-IsConsistent (gives_up d) i = record {
    light = i.light;
    knob = i.knob;
    quiet = elim i.quiet [
      | inl on ↦ inl on
      | inr (off, rests) ↦ inr (off, rw rests resting_elapsed)
    ];
  }
  Step-IsConsistent (presses d evt) i =
      released-IsConsistent f d (VolumeButton.process_key_event d.button evt) i
  Step-IsConsistent (senses d v) i = record {
    light = rw (deliver-standby d.brightness.subscriptions d.brightness v) i.light;
    knob = i.knob;
    quiet = i.quiet;
  }
  Step-IsConsistent (adapts d on) i =
      lit d (Brightness.set_adaptive_mode f d.brightness on).0
        (requests-standby d.brightness on (pos 0)).0 i
  Step-IsConsistent (lights d n) i =
      lit d (Brightness.set_active_brightness f d.brightness n).0
        (requests-standby d.brightness true n).1 i
  Step-IsConsistent (dims d n) i =
      lit d (Brightness.set_standby_brightness f d.brightness n).0
        (requests-standby d.brightness true n).2 i
  Step-IsConsistent (calls d c) i = power_call-IsConsistent f d c i

  Step-Tells : {d : Device D} {r : Device D × List Output} → Step d r → Tells f d r
  unfolding sleep_timer_elapsed playback_state_changed monitor_timeout button_event
      als_value_changed
  Step-Tells (rings d a) = rung-Tells f d a
  Step-Tells (sleeps d) =
      power_call-Tells f (record d { sleep = (SleepTimer.elapsed d.sleep).0 }) Power.standbys
  Step-Tells (plays d p) = refl
  Step-Tells (fails d e) = player_error-Tells f d e
  Step-Tells (gives_up d) = refl
  Step-Tells (presses d evt) = released-Tells f d (VolumeButton.process_key_event d.button evt)
  Step-Tells (senses d v) = deliver-TellsHardware f d.brightness.subscriptions d.brightness v
  Step-Tells (adapts d on) = (requests_tell f d.brightness on (pos 0)).0
  Step-Tells (lights d n) = (requests_tell f d.brightness true n).1
  Step-Tells (dims d n) = (requests_tell f d.brightness true n).2
  Step-Tells (calls d c) = power_call-Tells f d c

  -- In every state that the device can reach by the connections of main, the slots of the power
  -- control and the brightness requests, the standby flag of the backlight control and the volume
  -- knob follow the power state, in standby the alarm monitor is idle with its timer stopped, and the
  -- brightness that the hardware was told last, or the first one where it was told none, is the one
  -- that the control holds.
  pub Reach-IsConsistent :
      {t : ℤ} {b : BrightnessControl D} {d : Device D} {os : List Output}
      → Reach t b d os
      → IsConsistent f d × (shown b.current_brightness os ≡ d.brightness.current_brightness)
  unfolding start_up
  Reach-IsConsistent {t} {b} start =
      let d : Device D = record {
        power = Power.init;
        monitor = Monitor.init;
        sleep = SleepTimer.init t;
        brightness = record b { standby = true; subscriptions = 1 };
        button = VolumeButton.init;
      } in
      (standby_call f _ Power.PowerState.standby refl, power_call-Tells f d Power.standbys)
  Reach-IsConsistent {t} {b} (next {d} {e} {os} {ps} r st) =
      let (good, told) = Reach-IsConsistent r in
      (
        Step-IsConsistent st good,
        shown-append b.current_brightness os ps ∙ ap (λ v. shown v ps) told ∙ Step-Tells st,
      )
