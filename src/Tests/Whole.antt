-- ===== src/Tests/Whole.antt =====
-- The device as a whole.
use digital_rooster_gui.Base.{ℕ, ◌≡◌, false, List, [], ◌∷◌, ◌++◌, some, none}
use digital_rooster_gui.Base.Int.{pos}
use digital_rooster_gui.Power
use digital_rooster_gui.Monitor
use digital_rooster_gui.Wiring.{Device, Output, alarm_triggered, start_up}
use digital_rooster_gui.Wiring.Calls.{IsConsistent}
use digital_rooster_gui.Wiring.Light.{shown}
use digital_rooster_gui.Wiring.Standby.{Reach, start, next, rings, Reach-IsConsistent}
use digital_rooster_gui.Wiring.Stores.{
  Call, adds, enables, removes, steps, started, Follows, started-Follows,
}
use digital_rooster_gui.Wiring.Ringing.{AlarmClock}
use digital_rooster_gui.Player
use digital_rooster_gui.Tests.Playing.{stream}
use digital_rooster_gui.Tests.Instances.{whole, utc}
use digital_rooster_gui.Tests.Alarms.{work, friday_eight}
use digital_rooster_gui.Tests.Settings.{loaded, extra}
use digital_rooster_gui.Tests.Devices.{panel}

abbrev pub booted : Device ℕ
booted = (start_up whole (pos 60) panel).0

abbrev rung : Device ℕ
rung = (alarm_triggered whole booted work).0

abbrev outputs : List Output
outputs = (start_up whole (pos 60) panel).1 ++ (alarm_triggered whole booted work).1

rung-Reach : Reach whole (pos 60) panel rung outputs
rung-Reach = next start (rings booted work)

Reach-IsConsistent_example :
    IsConsistent whole rung
    × (shown panel.current_brightness outputs ≡ rung.brightness.current_brightness)
Reach-IsConsistent_example = Reach-IsConsistent whole rung-Reach

-- Another alarm is added, the first is switched off, and the new one is deleted.
abbrev changes : List Call
changes = adds extra ∷ enables 0 false ∷ removes 4 ∷ []

started-Follows_example :
    Follows utc friday_eight (steps utc friday_eight (started utc friday_eight loaded) changes)
started-Follows_example = started-Follows utc friday_eight loaded changes

-- The dispatcher waits for the alarm, whose item was stopped after a while.
abbrev clockwork : AlarmClock ℕ
clockwork = record {
  clock = record {
    configuration = loaded;
    dispatcher = record { upcoming_alarm = some 0; timer = some (pos 1000) };
  };
  device = booted;
  player = record {
    items = λ p. Player.stream (record stream { media_url = "http://a"; position = 3 });
    current_item = none;
    position_updateable = false;
    linear_volume = 30;
  };
}
