-- ===== src/Dispatcher.antt =====
-- libsrc/alarmdispatcher.cpp. Alarms are shared objects: the heap maps a pointer to its alarm, the
-- store's list and the dispatcher hold pointers. A slot returns the dispatcher and what it emits.
pub mod Upcoming
pub mod Timing
use mathlib.Core.List.{head?}
use digital_rooster_gui.Base.{
  ℕ, Bool, true, false, List, [], ◌∷◌, ◌++◌, Option, none, some, if◌then◌else◌,
}
use digital_rooster_gui.Base.Int.{ℤ, sub_ℕ, int32}
use digital_rooster_gui.Base.Sorting.{sort}
use digital_rooster_gui.Calendar.{Calendar, DateTime}
use digital_rooster_gui.Alarm.{Alarm}
use digital_rooster_gui.Schedule.{get_next_instance, less}

abbrev pub Heap : Type 0
Heap = ℕ → Alarm

-- `timer` is the interval of the running single-shot timer, in milliseconds; `none` is stopped.
pub record Dispatcher : Type 0 where
  pub upcoming_alarm : Option ℕ
  pub timer : Option ℤ

-- The text of an info is Qt's rendering of the instant; `none` is the empty text.
pub data Signal : Type 0 where
  alarm_triggered : ℕ → Signal
  upcoming_alarm_info_changed : Option DateTime → Signal

unfoldable pub get_upcoming_alarm : Calendar → DateTime → Heap → List ℕ → Option ℕ
get_upcoming_alarm c now heap alarms = head? (sort (λ p q. less c now (heap p) (heap q)) alarms)

-- toMSecsSinceEpoch of the two instants; the difference is narrowed by QTimer::start(int).
delay : Calendar → DateTime → Option DateTime → ℤ
delay c now none = sub_ℕ 0 (c.to_msecs_since_epoch now)
delay c now (some t) = sub_ℕ (c.to_msecs_since_epoch t) (c.to_msecs_since_epoch now)

-- `upcoming_alarm && upcoming_alarm->is_enabled()`
pub is_set : Heap → Option ℕ → Bool
is_set heap none = false
is_set heap (some p) = (heap p).enabled

next_of : Calendar → DateTime → Heap → Option ℕ → Option DateTime
next_of c now heap none = none
next_of c now heap (some p) = get_next_instance c now (heap p)

unfoldable pub check_alarms :
    Calendar → DateTime → Heap → List ℕ → Dispatcher → Dispatcher × List Signal
unfolding delay is_set next_of
check_alarms c now heap alarms d =
    let upcoming = get_upcoming_alarm c now heap alarms in
    let alm_dt = next_of c now heap upcoming in
    if is_set heap upcoming
    then (
      record { upcoming_alarm = upcoming; timer = some (int32 (delay c now alm_dt)) },
      upcoming_alarm_info_changed alm_dt ∷ [],
    )
    else (record { upcoming_alarm = upcoming; timer = none }, upcoming_alarm_info_changed none ∷ [])

dispatch : ℕ → List Signal
dispatch p = alarm_triggered p ∷ []

dispatch_upcoming : Heap → Option ℕ → List Signal
dispatch_upcoming heap none = []
dispatch_upcoming heap (some p) = if (heap p).enabled then dispatch p else []

-- The timer is single shot, so it has stopped when `trigger` runs.
unfoldable pub trigger : Calendar → DateTime → Heap → List ℕ → Dispatcher → Dispatcher × List Signal
unfolding dispatch dispatch_upcoming
trigger c now heap alarms d =
    let (d', signals) = check_alarms c now heap alarms (record d { timer = none }) in
    (d', dispatch_upcoming heap d.upcoming_alarm ++ signals)

unfoldable pub get_upcoming_alarm_info : Calendar → DateTime → Heap → Dispatcher → Option DateTime
unfolding is_set next_of
get_upcoming_alarm_info c now heap d =
    if is_set heap d.upcoming_alarm then next_of c now heap d.upcoming_alarm else none
