-- ===== src/Monitor/Fallback.antt =====
-- When the fallback alarm plays.
use digital_rooster_gui.Base.{◌≡◌, ◌≢◌, ◌⊎◌, Bool, true, false, [], ◌∷◌, arith}
use digital_rooster_gui.Alarm.{Alarm}
use digital_rooster_gui.Monitor.{
  AlarmMonitor, idle, fall_back_mode, set_volume, set_playlist, play, default_fallback_volume, init,
  stop, alarm_triggered, player_error, timer_elapsed,
}

-- What can happen to a monitor.
pub data Step : AlarmMonitor → AlarmMonitor → Type 0 where
  triggers : (m : AlarmMonitor) (a : Alarm) → Step m (alarm_triggered m a).0
  fails : (m : AlarmMonitor) (e : Bool) → Step m (player_error m e).0
  elapses : (m : AlarmMonitor) → m.timer_active ≡ true → Step m (timer_elapsed m)
  stops : (m : AlarmMonitor) → Step m (stop m)

pub data Reach : AlarmMonitor → Type 0 where
  start : Reach init
  next : {m n : AlarmMonitor} → Reach m → Step m n → Reach n

-- The timer runs exactly while the monitor is not idle.
abbrev pub IsWatching : AlarmMonitor → Type 0
IsWatching m =
    ((m.state ≡ idle) × (m.timer_active ≡ false)) ⊎ ((m.state ≢ idle) × (m.timer_active ≡ true))

Step-IsWatching : {m n : AlarmMonitor} → Step m n → IsWatching m → IsWatching n
unfolding alarm_triggered player_error timer_elapsed stop
Step-IsWatching (triggers m a) w = ground arith
Step-IsWatching (fails m e) w = ground arith
Step-IsWatching (elapses m h) w = ground arith
Step-IsWatching (stops m) w = ground arith

-- In every state that the monitor can reach, its timer runs exactly while it is not idle.
pub Reach-IsWatching : {m : AlarmMonitor} → Reach m → IsWatching m
unfolding init
Reach-IsWatching start = ground arith
Reach-IsWatching (next r s) = Step-IsWatching s (Reach-IsWatching r)

-- In every state that the monitor can reach, an error of the player starts the fallback alarm if
-- the monitor is not idle, and does nothing if it is.
pub player_error_reached :
    {m : AlarmMonitor}
    → Reach m
    → ((m.state ≡ idle) × (player_error m true ≡ (m, [])))
      ⊎ ((m.state ≢ idle)
          × ((player_error m true).0.state ≡ fall_back_mode)
          × ((player_error m true).1
              ≡ set_volume default_fallback_volume ∷ set_playlist 0 ∷ play ∷ []))
unfolding player_error
player_error_reached {m} r = split m (Reach-IsWatching r)
  where
    split :
        (m : AlarmMonitor)
        → IsWatching m
        → ((m.state ≡ idle) × (player_error m true ≡ (m, [])))
          ⊎ ((m.state ≢ idle)
              × ((player_error m true).0.state ≡ fall_back_mode)
              × ((player_error m true).1
                  ≡ set_volume default_fallback_volume ∷ set_playlist 0 ∷ play ∷ []))
    split m w = ground arith
