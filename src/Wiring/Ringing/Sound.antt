-- ===== src/Wiring/Ringing/Sound.antt =====
-- What an alarm makes the player do.
use digital_rooster_gui.Base.{ℕ, List, none}
use digital_rooster_gui.Double.{Double}
use digital_rooster_gui.Calendar.{Calendar, DateTime}
use digital_rooster_gui.Dispatcher
use digital_rooster_gui.Dispatcher.{check_alarms}
use digital_rooster_gui.Power
use digital_rooster_gui.Monitor
use digital_rooster_gui.Player
use digital_rooster_gui.Player.{Player}
use digital_rooster_gui.Wiring
use digital_rooster_gui.Wiring.{Output, power_signals, power_signal, to_hardware}
use digital_rooster_gui.Wiring.Stores.{Clock, heap_of, pointers}

module _ {D : Type 0} (f : Double D) where
  module _ (convert : D → D) (media : ℕ → ℕ) where
    -- The dispatcher after its timer has fired.
    abbrev next : Calendar → DateTime → Clock D → Dispatcher.Dispatcher × List Dispatcher.Signal
    next cal now k =
        check_alarms cal now (heap_of k.configuration.alarms) (pointers k.configuration.alarms)
          (record k.dispatcher { timer = none })
