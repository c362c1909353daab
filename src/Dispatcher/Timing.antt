-- ===== src/Dispatcher/Timing.antt =====
-- When the timer of the dispatcher runs out, and what happens then.
use digital_rooster_gui.Base.{
  ℕ, ◌+◌, ◌-◌, ap, ◌∙◌, ◌*◌, ◌^◌, ◌<◌, ◌≡◌, refl, true, List, [], ◌∷◌, some, arith,
}
use digital_rooster_gui.Base.Int.{pos, sub_ℕ, int32, int32_fits}
use digital_rooster_gui.Calendar.{Calendar, DateTime, stamp, msecs_per_day, SameOffset}
use digital_rooster_gui.Alarm.{once}
use digital_rooster_gui.Schedule.{get_next_instance}
use digital_rooster_gui.Schedule.Earliest.{IsDue-of_next}
use digital_rooster_gui.Dispatcher.{
  Heap, Dispatcher, alarm_triggered, upcoming_alarm_info_changed, check_alarms, trigger,
  get_upcoming_alarm,
}
use digital_rooster_gui.Base.Sorting.{sort}

-- The narrowed difference is exact where it fits.
int32-sub : (a b n : ℕ) → a ≡ b + n → n < 2 ^ 31 → int32 (sub_ℕ a b) ≡ pos n
int32-sub a b n e h = ground (arith, int32_fits n)

-- The timer that `check_alarms` starts for an alarm with a next instance.
timer_of :
    (c : Calendar) (now t : DateTime) (heap : Heap) (alarms : List ℕ) (d : Dispatcher) (p : ℕ)
    → (check_alarms c now heap alarms d).0.upcoming_alarm ≡ some p
    → get_next_instance c now (heap p) ≡ some t
    → (check_alarms c now heap alarms d).0.timer
      ≡ some (int32 (sub_ℕ (c.to_msecs_since_epoch t) (c.to_msecs_since_epoch now)))
unfolding check_alarms
timer_of c now t heap alarms d p e next = ground (arith, IsDue-of_next c now t (heap p) next)

-- If the zone's offset does not change until then, the timer of an upcoming alarm `p` runs for
-- exactly the time to the next instance, which is less than seven days and fits the `int`.
pub timer_exact :
    (c : Calendar) (now t : DateTime) (heap : Heap) (alarms : List ℕ) (d : Dispatcher) (p : ℕ)
    → (check_alarms c now heap alarms d).0.upcoming_alarm ≡ some p
    → get_next_instance c now (heap p) ≡ some t
    → SameOffset c t now
    → now.time < msecs_per_day
    → (heap p).alarm_time < msecs_per_day
    → (n : ℕ) × ((check_alarms c now heap alarms d).0.timer ≡ some (pos n))
      × (stamp now + n ≡ stamp t)
      × (n < 7 * msecs_per_day)
timer_exact c now t heap alarms d p e next steady day alarm_day =
    let (on, (time, late, _), week) = IsDue-of_next c now t (heap p) next in
    let n = stamp t - stamp now in
    let small : n < 7 * msecs_per_day = omega arith in
    let later : stamp now + n ≡ stamp t = omega arith in
    (
      n,
      timer_of c now t heap alarms d p e next
          ∙ ap some (int32-sub _ _ n (omega arith) (omega arith)),
      later,
      small,
    )

-- The outcome of `trigger` where the store holds one alarm, which is the upcoming one.
trigger_single :
    (c : Calendar) (now t : DateTime) (heap : Heap) (d : Dispatcher) (p : ℕ)
    → d.upcoming_alarm ≡ some p
    → get_next_instance c now (heap p) ≡ some t
    → trigger c now heap (p ∷ []) d ≡ (
      record {
        upcoming_alarm = some p;
        timer = some (int32 (sub_ℕ (c.to_msecs_since_epoch t) (c.to_msecs_since_epoch now)));
      },
      alarm_triggered p ∷ upcoming_alarm_info_changed (some t) ∷ [],
    )
unfolding trigger check_alarms get_upcoming_alarm sort
trigger_single c now t heap d p e next = ground (arith, IsDue-of_next c now t (heap p) next)

-- Where the upcoming alarm is the only one and the slot runs at the very instant of the alarm, it
-- announces the alarm and starts the timer with an interval of zero for the same alarm.
pub trigger_rearms_at_once :
    (c : Calendar) (now : DateTime) (heap : Heap) (d : Dispatcher) (p : ℕ)
    → d.upcoming_alarm ≡ some p
    → get_next_instance c now (heap p) ≡ some now
    → trigger c now heap (p ∷ []) d ≡ (
      record { upcoming_alarm = some p; timer = some (pos 0) },
      alarm_triggered p ∷ upcoming_alarm_info_changed (some now) ∷ [],
    )
trigger_rearms_at_once c now heap d p e next =
    let m = c.to_msecs_since_epoch now in
    rw (← int32-sub m m 0 (omega arith) (omega arith)) (trigger_single c now now heap d p e next)

-- An alarm that is to ring once, the only one, is announced by a slot that runs after its time of
-- day, and is then the upcoming alarm for the same time of the next day.
pub once_rings_again :
    (c : Calendar) (now : DateTime) (heap : Heap) (d : Dispatcher) (p : ℕ)
    → d.upcoming_alarm ≡ some p
    → (heap p).enabled ≡ true
    → (heap p).period ≡ once
    → (heap p).alarm_time < now.time
    → let tomorrow : DateTime = record { date = now.date + 1; time = (heap p).alarm_time } in
      ((trigger c now heap (p ∷ []) d).0.upcoming_alarm ≡ some p)
      × (get_next_instance c now (heap p) ≡ some tomorrow)
      × ((trigger c now heap (p ∷ []) d).1
          ≡ alarm_triggered p ∷ upcoming_alarm_info_changed (some tomorrow) ∷ [])
unfolding get_next_instance
once_rings_again c now heap d p e on single passed =
    let tomorrow : DateTime = record { date = now.date + 1; time = (heap p).alarm_time } in
    let next : get_next_instance c now (heap p) ≡ some tomorrow = ground arith in
    let done = trigger_single c now tomorrow heap d p e next in (rw done refl, next, rw done refl)
