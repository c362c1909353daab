-- ===== src/Schedule.antt =====
-- `get_next_instance` and `operator<` of libsrc/alarm.cpp. The wall clock is read once, as `now`.
mod Days
pub mod Earliest
pub mod Order
use digital_rooster_gui.Base.{
  ℕ, ◌+◌, ◌-◌, Bool, true, false, ◌&&◌, Option, none, some, ltb, leb, if◌then◌else◌,
}
use digital_rooster_gui.Calendar.{Calendar, DateTime, saturday, sunday}
use digital_rooster_gui.Alarm.{Alarm, Period, once, daily, weekend, workdays}

-- The cases of the `switch`. `passed` is `now.time() > alm.get_time()`.
pub daily_date : ℕ → Bool → ℕ
daily_date today passed = if passed then today + 1 else today

pub weekend_date : Calendar → ℕ → Bool → ℕ
weekend_date c today passed =
    let dow = c.day_of_week today in
    let next = if leb saturday dow && passed then today + 1 else today in
    if ltb (c.day_of_week next) saturday then next + (saturday - c.day_of_week next) else next

pub workdays_date : Calendar → ℕ → Bool → ℕ
workdays_date c today passed =
    let dow = c.day_of_week today in
    let next = if ltb dow saturday && passed then today + 1 else today in
    let monday = if leb saturday dow then next + (sunday - dow + 1) else next in
    if leb saturday (c.day_of_week monday)
    then monday + (sunday - c.day_of_week monday + 1)
    else monday

pub next_date : Calendar → Period → ℕ → Bool → ℕ
next_date c once today passed = daily_date today passed
next_date c daily today passed = daily_date today passed
next_date c weekend today passed = weekend_date c today passed
next_date c workdays today passed = workdays_date c today passed

-- `none` is the invalid QDateTime.
unfoldable pub get_next_instance : Calendar → DateTime → Alarm → Option DateTime
unfolding next_date daily_date weekend_date workdays_date
get_next_instance c now alm =
    if alm.enabled
    then some (record {
      date = next_date c alm.period now.date (ltb alm.alarm_time now.time);
      time = alm.alarm_time;
    })
    else none

-- QDateTime compares instants; an invalid one is met on neither side.
before : Calendar → Option DateTime → Option DateTime → Bool
before c (some t) (some u) = ltb (c.to_msecs_since_epoch t) (c.to_msecs_since_epoch u)
before c _ _ = false

-- bool operator<(const Alarm& lhs, const Alarm& rhs)
unfoldable pub less : Calendar → DateTime → Alarm → Alarm → Bool
unfolding before
less c now lhs rhs =
    if lhs.enabled
    then (if rhs.enabled
        then before c (get_next_instance c now lhs) (get_next_instance c now rhs)
        else true)
    else false
