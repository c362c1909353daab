-- ===== src/Wiring/Ringing.antt =====
-- The alarm clock as a whole: the timer of the dispatcher fires, and by the connections of
-- qtgui/main.cpp the device and the player hear of it. `media` gives the item that an alarm plays,
-- which the constructor of Alarm makes; pointers are those of Wiring.Stores. The signal of the knob
-- counts in steps of VOLUME_INCREMENT, which is 0.5.
pub mod Commands
pub mod Sound
use digital_rooster_gui.Base.{ℕ, List, [], ◌∷◌, ◌++◌}
use digital_rooster_gui.Double.{Double}
use digital_rooster_gui.Calendar.{Calendar, DateTime}
use digital_rooster_gui.Dispatcher
use digital_rooster_gui.Dispatcher.{trigger}
use digital_rooster_gui.Monitor
use digital_rooster_gui.Player
use digital_rooster_gui.Player.{Player}
use digital_rooster_gui.Wiring
use digital_rooster_gui.Wiring.{Device, Output, player}
use digital_rooster_gui.Wiring.Stores.{Clock, heap_of, pointers}

pub record AlarmClock (D : Type 0) : Type 0 where
  pub clock : Clock D
  pub device : Device D
  pub player : Player D

module _ {D : Type 0} (f : Double D) (convert : D → D) (media : ℕ → ℕ) where
  -- What the device asks of the player; `m` is the item of the alarm.
  obey : ℕ → Player D → Output → Player D × List (Player.Effect D)
  obey m p (player (Monitor.set_media url)) = Player.set_media p m
  obey m p (player (Monitor.set_volume volume)) = Player.set_volume f convert p (f.of_int volume)
  obey m p (player (Monitor.set_playlist playlist)) = (p, Player.set_playlist p playlist)
  obey m p (player Monitor.play) = (p, Player.play p)
  obey m p Wiring.player_stop = Player.stop p
  obey m p (Wiring.increment_volume n) =
      Player.increment_volume f convert p (f.mul (f.of_int n) (f.ratio 1 2))
  obey m p (Wiring.set_backlight b) = (p, [])
  obey m p Wiring.system_reboot = (p, [])
  obey m p Wiring.system_poweroff = (p, [])

  unfoldable pub obeys : ℕ → Player D → List Output → Player D × List (Player.Effect D)
  unfolding obey
  obeys m p [] = (p, [])
  obeys m p (o ∷ os) =
      let (p₁, first) = obey m p o in let (p₂, rest) = obeys m p₁ os in (p₂, first ++ rest)

  -- The slots of one signal of the dispatcher.
  deliver : AlarmClock D → Dispatcher.Signal → AlarmClock D × List (Player.Effect D)
  deliver w (Dispatcher.alarm_triggered p) =
      let (device, outputs) =
        Wiring.alarm_triggered f w.device (heap_of w.clock.configuration.alarms p) in
      let (q, effects) = obeys (media p) w.player outputs in
      (record w { device = device; player = q }, effects)
  deliver w (Dispatcher.upcoming_alarm_info_changed info) = (w, [])

  delivers : AlarmClock D → List Dispatcher.Signal → AlarmClock D × List (Player.Effect D)
  delivers w [] = (w, [])
  delivers w (s ∷ ss) =
      let (w₁, first) = deliver w s in let (w₂, rest) = delivers w₁ ss in (w₂, first ++ rest)

  -- The timer of the dispatcher fires.
  unfoldable pub timer_fires :
      Calendar → DateTime → AlarmClock D → AlarmClock D × List (Player.Effect D)
  unfolding deliver delivers
  timer_fires cal now w =
      let alarms = w.clock.configuration.alarms in
      let (dispatcher, signals) =
        trigger cal now (heap_of alarms) (pointers alarms) w.clock.dispatcher in
      delivers (record w { clock = record w.clock { dispatcher = dispatcher } }) signals
