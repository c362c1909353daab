-- ===== src/SleepTimer.antt =====
-- include/sleeptimer.hpp and libsrc/sleeptimer.cpp. Durations are milliseconds but for the
-- configured timeout, which is in minutes. A slot returns the new timer and what it emits, in order.
pub mod Running
use digital_rooster_gui.Base.{
  ℕ, zero, suc, ◌+◌, ◌*◌, ◌/◌, ◌≡◌, Bool, true, false, List, [], ◌∷◌, ◌++◌, Option, none, some,
  if◌then◌else◌,
}
use digital_rooster_gui.Base.Int.{ℤ, pos, negsuc, sub_ℕ}
use digital_rooster_gui.Alarm.{Alarm}

pub data TimerState : Type 0 where
  idle alarm playing : TimerState

pub data PlaybackState : Type 0 where
  stopped_state playing_state paused_state : PlaybackState

pub data Signal : Type 0 where
  sleep_timer_elapsed : Signal
  remaining_time_changed : ℤ → Signal
  sleep_timeout_changed : ℤ → Signal

-- `sleep_timeout` is what the store holds; `remaining` is what the running timer has left.
pub record SleepTimer : Type 0 where
  pub sleep_timeout : ℤ
  pub interval : ℤ
  pub remaining : Option ℤ
  pub remaining_time : ℤ
  pub activity : TimerState

-- std::chrono::minutes as milliseconds, and back with duration_cast, which truncates to zero.
pub minutes : ℤ → ℤ
minutes (pos n) = pos (n * 60000)
minutes (negsuc n) = negsuc (n * 60000 + 59999)

to_minutes : ℤ → ℤ
to_minutes (pos n) = pos (n / 60000)
to_minutes (negsuc n) = sub_ℕ 0 ((n + 1) / 60000)

-- remainingTimeAsDuration is -1 for a timer that does not run.
left : Option ℤ → ℤ
left none = negsuc 0
left (some r) = r

unfoldable pub get_remaining_time : SleepTimer → SleepTimer × ℤ
unfolding to_minutes left
get_remaining_time s = let m = to_minutes (left s.remaining) in (record s { remaining_time = m }, m)

announce : SleepTimer → SleepTimer × List Signal
announce s = let (s', m) = get_remaining_time s in (s', remaining_time_changed m ∷ [])

start : SleepTimer → SleepTimer
start s = record s { remaining = some s.interval }

unfoldable pub init : ℤ → SleepTimer
unfolding minutes
init timeout = record {
  sleep_timeout = timeout;
  interval = minutes timeout;
  remaining = none;
  remaining_time = timeout;
  activity = idle;
}

is_alarm : TimerState → Bool
is_alarm alarm = true
is_alarm idle = false
is_alarm playing = false

restart_unless_alarm : SleepTimer → SleepTimer × List Signal
restart_unless_alarm s =
    if is_alarm s.activity
    then (s, [])
    else announce (start (record s { interval = minutes s.sleep_timeout }))

unfoldable pub playback_state_changed : SleepTimer → PlaybackState → SleepTimer × List Signal
unfolding is_alarm restart_unless_alarm announce start minutes get_remaining_time
playback_state_changed s playing_state =
    let (s', signals) = restart_unless_alarm s in (record s' { activity = playing }, signals)
playback_state_changed s stopped_state = (s, [])
playback_state_changed s paused_state = (s, [])

unfoldable pub reset_timer : SleepTimer → SleepTimer × List Signal
unfolding announce start get_remaining_time
reset_timer s = announce (start s)

unfoldable pub alarm_triggered : SleepTimer → Alarm → SleepTimer × List Signal
unfolding announce start minutes get_remaining_time
alarm_triggered s a = announce (start (record s { activity = alarm; interval = minutes a.timeout }))

unfoldable pub timeout_changed : SleepTimer → ℤ → SleepTimer × List Signal
unfolding announce start minutes get_remaining_time
timeout_changed s to = announce (start (record s { interval = minutes to }))

-- The overload for minutes: the store is written first, then the running timer.
unfoldable pub set_sleep_timeout : SleepTimer → ℤ → SleepTimer × List Signal
set_sleep_timeout s timeout =
    let (s', signals) = timeout_changed (record s { sleep_timeout = timeout }) timeout in
    (s', signals ++ sleep_timeout_changed timeout ∷ [])

-- The handler of the timeout: the timer is single shot and has stopped.
unfoldable pub elapsed : SleepTimer → SleepTimer × List Signal
elapsed s = (record s { activity = idle; remaining = none }, sleep_timer_elapsed ∷ [])

-- timerEvent of the thirty second timer
unfoldable pub timer_event : SleepTimer → SleepTimer × List Signal
unfolding announce get_remaining_time
timer_event s = announce s
