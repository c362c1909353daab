-- ===== src/Monitor.antt =====
-- include/alarmmonitor.hpp and libsrc/alarmmonitor.cpp. A slot returns the new monitor and what it
-- asks of the media player, in order. The player's signals arrive after the slot that caused them.
pub mod Fallback
use digital_rooster_gui.Base.{ℕ, String, Bool, true, false, ◌&&◌, List, [], ◌∷◌, if◌then◌else◌}
use digital_rooster_gui.Base.Int.{ℤ, pos}
use digital_rooster_gui.Alarm.{Alarm}

pub data MonitorState : Type 0 where
  idle armed fall_back_mode : MonitorState

-- Volumes are whole per cents here.
pub data Command : Type 0 where
  set_media : String → Command
  set_volume : ℤ → Command
  set_playlist : ℕ → Command
  play : Command

-- `timer_active` is fallback_alarm_timer.isActive().
pub record AlarmMonitor : Type 0 where
  pub state : MonitorState
  pub timer_active : Bool

abbrev pub default_fallback_volume : ℤ
default_fallback_volume = pos 35

unfoldable pub init : AlarmMonitor
init = record { state = idle; timer_active = false }

set_state : AlarmMonitor → MonitorState → AlarmMonitor
set_state m next_state = record m { state = next_state }

unfoldable pub stop : AlarmMonitor → AlarmMonitor
unfolding set_state
stop m = set_state (record m { timer_active = false }) idle

unfoldable pub alarm_triggered : AlarmMonitor → Alarm → AlarmMonitor × List Command
unfolding set_state
alarm_triggered m alarm = (
  record (set_state m armed) { timer_active = true },
  set_media alarm.media_url ∷ set_volume alarm.volume ∷ play ∷ [],
)

-- The fallback playlist holds one bell and starts at its index.
unfoldable pub trigger_fallback_behavior : AlarmMonitor → AlarmMonitor × List Command
unfolding set_state
trigger_fallback_behavior m =
    (set_state m fall_back_mode, set_volume default_fallback_volume ∷ set_playlist 0 ∷ play ∷ [])

-- The handler of the player's `error`; the argument is `error != QMediaPlayer::NoError`.
unfoldable pub player_error : AlarmMonitor → Bool → AlarmMonitor × List Command
unfolding trigger_fallback_behavior
player_error m is_error =
    if is_error && m.timer_active then trigger_fallback_behavior m else (m, [])

-- The handler of the timer, which is single shot and has stopped.
unfoldable pub timer_elapsed : AlarmMonitor → AlarmMonitor
unfolding set_state
timer_elapsed m = set_state (record m { timer_active = false }) idle
