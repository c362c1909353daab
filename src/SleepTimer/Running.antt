-- ===== src/SleepTimer/Running.antt =====
-- When the sleep timer runs, and for how long.
use digital_rooster_gui.Base.{◌≡◌, ◌≢◌, refl, none, some, arith}
use digital_rooster_gui.Base.Int.{ℤ}
use digital_rooster_gui.Alarm.{Alarm}
use digital_rooster_gui.SleepTimer.{
  SleepTimer, idle, PlaybackState, playing_state, stopped_state, paused_state, init, minutes,
  playback_state_changed, reset_timer, alarm_triggered, timeout_changed, set_sleep_timeout, elapsed,
  timer_event,
}

-- What can happen to a sleep timer; `passes` is time that passes before the timer runs out.
pub data Step : SleepTimer → SleepTimer → Type 0 where
  plays : (s : SleepTimer) (p : PlaybackState) → Step s (playback_state_changed s p).0
  resets : (s : SleepTimer) → Step s (reset_timer s).0
  alarms : (s : SleepTimer) (a : Alarm) → Step s (alarm_triggered s a).0
  timeouts : (s : SleepTimer) (t : ℤ) → Step s (set_sleep_timeout s t).0
  elapses : (s : SleepTimer) → Step s (elapsed s).0
  events : (s : SleepTimer) → Step s (timer_event s).0
  passes :
      (s : SleepTimer) (r r' : ℤ) → s.remaining ≡ some r → Step s (record s { remaining = some r' })

pub data Reach (t : ℤ) : SleepTimer → Type 0 where
  start : Reach t (init t)
  next : {s u : SleepTimer} → Reach t s → Step s u → Reach t u

-- Whatever started playing will be put to sleep: the timer runs.
abbrev pub WillSleep : SleepTimer → Type 0
WillSleep s = s.activity ≢ idle → s.remaining ≢ none

Step-WillSleep : {s u : SleepTimer} → Step s u → WillSleep s → WillSleep u
unfolding playback_state_changed reset_timer alarm_triggered timeout_changed set_sleep_timeout
    elapsed timer_event
Step-WillSleep (plays s playing_state) w = ground arith
Step-WillSleep (plays s stopped_state) w = w
Step-WillSleep (plays s paused_state) w = w
Step-WillSleep (resets s) w = ground arith
Step-WillSleep (alarms s a) w = ground arith
Step-WillSleep (timeouts s t) w = ground arith
Step-WillSleep (elapses s) w = ground arith
Step-WillSleep (events s) w = w
Step-WillSleep (passes s r r' e) w = ground arith

-- In every state that can be reached the timer runs unless the activity is idle.
pub Reach-WillSleep : {t : ℤ} {s : SleepTimer} → Reach t s → s.activity ≢ idle → s.remaining ≢ none
unfolding init
Reach-WillSleep start = λ h e. h refl
Reach-WillSleep (next r st) = Step-WillSleep st (Reach-WillSleep r)

-- The timeout of an alarm holds while its media starts: the first time that the player reports that
-- it plays after an alarm does not restart the timer, and the next one does, with the configured
-- timeout.
pub alarm_then_playing :
    (s : SleepTimer) (a : Alarm)
    → let s₁ = (alarm_triggered s a).0 in
      let s₂ = (playback_state_changed s₁ playing_state).0 in
      let s₃ = (playback_state_changed s₂ playing_state).0 in
      (s₁.remaining ≡ some (minutes a.timeout))
      × (s₂.remaining ≡ some (minutes a.timeout))
      × (s₃.remaining ≡ some (minutes s.sleep_timeout))
unfolding alarm_triggered playback_state_changed
alarm_then_playing s a = (refl, refl, refl)
