-- ===== src/Schedule/Earliest.antt =====
-- `get_next_instance` gives the next time at which the alarm is due.
use digital_rooster_gui.Base.{
  ◌+◌, ◌≤◌, ◌≡◌, ◌↔◌, refl, inl, inr, true, false, none, some, arith, ltb, Bool-cases,
}
use mathlib.Core.Path.{subst}
use digital_rooster_gui.Calendar.{Calendar, DateTime, NotAfter}
use digital_rooster_gui.Alarm.{Alarm}
use digital_rooster_gui.Schedule.{next_date, get_next_instance}
use digital_rooster_gui.Schedule.Days.{Allowed, next_date-IsFirst, next_date-le}

-- The instants, from `now` on, at which an enabled alarm is due.
abbrev pub IsDue : Calendar → DateTime → Alarm → DateTime → Type 0
IsDue c now alm t = (t.time ≡ alm.alarm_time) × NotAfter now t × Allowed c alm.period t.date

-- An enabled alarm has a next instance, and it is due then: at its time of day, on a day of its
-- period, not before now. It is at most six days ahead.
pub get_next_instance-IsDue :
    (c : Calendar) (now : DateTime) (alm : Alarm)
    → alm.enabled ≡ true
    → (t : DateTime) × (get_next_instance c now alm ≡ some t)
      × IsDue c now alm t
      × (t.date ≤ now.date + 6)
unfolding get_next_instance
get_next_instance-IsDue c now alm on =
    let passed = ltb alm.alarm_time now.time in
    let d = next_date c alm.period now.date passed in
    let (late, allowed, _) = next_date-IsFirst c alm.period now.date passed in
    (
      record { date = d; time = alm.alarm_time },
      rw on,
      (refl, ground arith, allowed),
      next_date-le c alm.period now.date passed,
    )

-- The next instance of an alarm is not after any other instant at which the alarm is due.
pub get_next_instance_earliest :
    (c : Calendar) (now t u : DateTime) (alm : Alarm)
    → get_next_instance c now alm ≡ some t
    → IsDue c now alm u
    → NotAfter t u
unfolding get_next_instance
get_next_instance_earliest c now t u alm e due =
    let passed = ltb alm.alarm_time now.time in
    let (late, allowed, first) = next_date-IsFirst c alm.period now.date passed in
    ground (arith, first u.date)

-- A disabled alarm has no next instance, and only a disabled alarm has none.
pub get_next_instance-none :
    (c : Calendar) (now : DateTime) (alm : Alarm)
    → (get_next_instance c now alm ≡ none) ↔ (alm.enabled ≡ false)
unfolding get_next_instance
get_next_instance-none c now alm = (λ h. ground arith, λ h. ground arith)

-- The same for a next instance that is at hand.
pub IsDue-of_next :
    (c : Calendar) (now t : DateTime) (alm : Alarm)
    → get_next_instance c now alm ≡ some t
    → (alm.enabled ≡ true) × IsDue c now alm t × (t.date ≤ now.date + 6)
IsDue-of_next c now t alm e = elim (Bool-cases alm.enabled) [
  | inl on ↦
      let (u, e', due, week) = get_next_instance-IsDue c now alm on in
      let same : u ≡ t = cc in (on, subst (IsDue c now alm) same due, rw (← same) week)
  | inr off ↦ absurd (let p = (get_next_instance-none c now alm).1 off in cc)
]
