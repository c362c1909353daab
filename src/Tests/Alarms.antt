-- ===== src/Tests/Alarms.antt =====
-- Alarms: the schedule, the dispatcher and the stored form.
use digital_rooster_gui.Base.{
  ◌==◌, if◌then◌else◌, ℕ, ◌+◌, ◌*◌, ◌≤◌, ◌<◌, ◌≡◌, refl, ◌⊎◌, inl, true, [], ◌∷◌, some, none, arith,
}
use digital_rooster_gui.Base.Int.{pos}
use digital_rooster_gui.Base.Sorting.{sort}
use digital_rooster_gui.Calendar.{DateTime, NotAfter, stamp, msecs_per_day}
use digital_rooster_gui.Alarm.{Alarm, once, weekend, workdays, from_json_object, to_json_object}
use digital_rooster_gui.Alarm.Storage.{alarm_round_trip}
use digital_rooster_gui.Schedule.{get_next_instance, less}
use digital_rooster_gui.Schedule.Earliest.{
  IsDue, get_next_instance-IsDue, get_next_instance_earliest,
}
use digital_rooster_gui.Dispatcher.{Heap, Dispatcher, check_alarms, get_upcoming_alarm}
use digital_rooster_gui.Dispatcher.Upcoming.{Armed, Disarmed, check_alarms_outcome}
use digital_rooster_gui.Dispatcher.Timing.{timer_exact}
use digital_rooster_gui.Tests.Instances.{utc, at_hour, pairs, tallies}

-- Seven o'clock on workdays, and nine on the weekend.
abbrev pub work : Alarm
work = record {
  id = 1;
  media_url = "http://a";
  period = workdays;
  alarm_time = 25200000;
  enabled = true;
  timeout = pos 45;
  volume = pos 20;
}

abbrev rest : Alarm
rest = record work { id = 2; period = weekend; alarm_time = 32400000 }

abbrev single : Alarm
single = record work { id = 3; period = once }

abbrev two : Heap
two p = if p == 0 then work else rest

abbrev pub friday_eight : DateTime
friday_eight = at_hour 4 8

abbrev fresh_dispatcher : Dispatcher
fresh_dispatcher = record { upcoming_alarm = none; timer = none }

abbrev waiting : Dispatcher
waiting = record { upcoming_alarm = some 0; timer = none }

get_next_instance-IsDue_example :
    (t : DateTime) × (get_next_instance utc friday_eight work ≡ some t)
    × IsDue utc friday_eight work t
    × (t.date ≤ 10)
get_next_instance-IsDue_example = get_next_instance-IsDue utc friday_eight work refl

get_next_instance_earliest_example : NotAfter (at_hour 7 7) (at_hour 8 7)
unfolding get_next_instance
get_next_instance_earliest_example =
    get_next_instance_earliest utc friday_eight (at_hour 7 7) (at_hour 8 7) work refl
      (refl, inl (omega arith), omega arith)

check_alarms_outcome_example :
    let r = check_alarms utc friday_eight two (0 ∷ 1 ∷ []) fresh_dispatcher in
    Armed utc friday_eight two (0 ∷ 1 ∷ []) r ⊎ Disarmed utc friday_eight two (0 ∷ 1 ∷ []) r
check_alarms_outcome_example =
    check_alarms_outcome utc friday_eight two (0 ∷ 1 ∷ []) fresh_dispatcher

timer_exact_example :
    (n : ℕ) × ((check_alarms utc friday_eight two (0 ∷ 1 ∷ []) fresh_dispatcher).0.timer
      ≡ some (pos n))
    × (stamp friday_eight + n ≡ stamp (at_hour 5 9))
    × (n < 7 * msecs_per_day)
unfolding check_alarms get_upcoming_alarm sort less get_next_instance
timer_exact_example =
    timer_exact utc friday_eight (at_hour 5 9) two (0 ∷ 1 ∷ []) fresh_dispatcher 1 refl refl
      (omega arith) (omega arith) (omega arith)

alarm_round_trip_example :
    from_json_object pairs tallies (to_json_object pairs tallies work) "new"
    ≡ some (record work { timeout = pos 30 })
alarm_round_trip_example =
    alarm_round_trip pairs tallies work "new" (omega arith) (omega arith) refl (omega arith)
