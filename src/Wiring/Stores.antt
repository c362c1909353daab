-- ===== src/Wiring/Stores.antt =====
-- The alarm store and the dispatcher: qtgui/main.cpp connects alarms_changed of the configuration to
-- check_alarms of the dispatcher. The pointer of an alarm is the row of the object in the vector, so
-- alarms with the same id are different objects; every change of the vector ends in check_alarms,
-- which takes all pointers anew, so no row is kept over a change.
use digital_rooster_gui.Base.{
  ℕ, suc, get_elem?, ◌≡◌, refl, sym, subst, ◌⊎◌, inl, inr, Bool, false, List, [], ◌∷◌, Option, none,
  some, Option-cases,
}
use digital_rooster_gui.Calendar.{Calendar, DateTime}
use digital_rooster_gui.Alarm.{Alarm, daily, make, enable, set_time}
use digital_rooster_gui.Configuration.{
  Configuration, Signal, alarm_id, find_by_id, add_alarm, delete_alarm, change_alarm,
  alarms_changed, stations_changed, podcast_sources_changed,
}
use digital_rooster_gui.Dispatcher
use digital_rooster_gui.Dispatcher.{Dispatcher, Heap, check_alarms}
use digital_rooster_gui.Dispatcher.Upcoming.{Armed, Disarmed, check_alarms_outcome}
use digital_rooster_gui.Configuration.Maps.{deletes}

pub record Clock (D : Type 0) : Type 0 where
  pub configuration : Configuration D
  pub dispatcher : Dispatcher

-- An alarm is deleted by its id, and changed through its object, by row.
pub data Call : Type 0 where
  adds : Alarm → Call
  removes : ℕ → Call
  enables : ℕ → Bool → Call
  sets_time : ℕ → ℕ → Call

found : ℕ → Option Alarm → Alarm
found p none = make "" 0 daily false p
found p (some a) = a

unfoldable pub heap_of : List Alarm → Heap
unfolding found
heap_of as' p = found p (get_elem? as' p)

abbrev pub rows : ℕ → List Alarm → List ℕ
rows n [] = []
rows n (a ∷ as') = n ∷ rows (suc n) as'

abbrev pub pointers : List Alarm → List ℕ
pointers as' = rows 0 as'

module _ {D : Type 0} (cal : Calendar) (now : DateTime) where
  -- The slot of one signal of the configuration.
  config_signal : Configuration D → Dispatcher → Signal → Dispatcher
  config_signal c d alarms_changed =
      (check_alarms cal now (heap_of c.alarms) (pointers c.alarms) d).0
  config_signal c d stations_changed = d
  config_signal c d podcast_sources_changed = d

  unfoldable pub config_signals : Configuration D → Dispatcher → List Signal → Dispatcher
  unfolding config_signal
  config_signals c d [] = d
  config_signals c d (s ∷ ss) = config_signals c (config_signal c d s) ss

  after : Clock D → Configuration D × List Signal → Clock D
  after k (c, signals) = record {
    configuration = c;
    dispatcher = config_signals c k.dispatcher signals;
  }

  unfoldable pub step : Clock D → Call → Clock D
  unfolding after config_signals
  step k (adds a) = after k (add_alarm k.configuration a)
  step k (removes n) = elim (delete_alarm k.configuration n) [ none ↦ k | some r ↦ after k r ]
  step k (enables n b) = after k (change_alarm k.configuration n (λ a. enable a b))
  step k (sets_time n t) = after k (change_alarm k.configuration n (λ a. set_time a t))

  unfoldable pub steps : Clock D → List Call → Clock D
  steps k [] = k
  steps k (e ∷ es) = steps (step k e) es

  -- The start of the dispatcher.
  unfoldable pub started : Configuration D → Clock D
  started c = record {
    configuration = c;
    dispatcher =
        (check_alarms cal now (heap_of c.alarms) (pointers c.alarms)
          (record { upcoming_alarm = none; timer = none })).0;
  }

  -- The dispatcher waits for the next alarm of the store, if one of them is enabled.
  abbrev pub Follows : Clock D → Type 0
  Follows k =
      let heap = heap_of k.configuration.alarms in
      let alarms = pointers k.configuration.alarms in
      (signals : List Dispatcher.Signal) × (Armed cal now heap alarms (k.dispatcher, signals)
        ⊎ Disarmed cal now heap alarms (k.dispatcher, signals))

  pub checked :
      (c : Configuration D) (d : Dispatcher)
      → Follows (record {
        configuration = c;
        dispatcher = (check_alarms cal now (heap_of c.alarms) (pointers c.alarms) d).0;
      })
  checked c d = (
    (check_alarms cal now (heap_of c.alarms) (pointers c.alarms) d).1,
    check_alarms_outcome cal now (heap_of c.alarms) (pointers c.alarms) d,
  )

  -- A call of the configuration leaves it alone and is silent, or announces the alarms.
  abbrev Outcome : Configuration D → Configuration D × List Signal → Type 0
  Outcome c r = (r ≡ (c, [])) ⊎ ((c' : Configuration D) × (r ≡ (c', alarms_changed ∷ [])))

  after-Follows :
      (k : Clock D) (r : Configuration D × List Signal)
      → Outcome k.configuration r
      → Follows k
      → Follows (after k r)
  unfolding after config_signals config_signal
  after-Follows k r (inl e) h = subst (λ r. Follows (after k r)) (sym e) h
  after-Follows k r (inr (c', e)) h =
      subst (λ r. Follows (after k r)) (sym e) (checked c' k.dispatcher)

  delete-Outcome :
      (c : Configuration D) (n : ℕ)
      → (delete_alarm c n ≡ none)
        ⊎ ((c' : Configuration D) × (delete_alarm c n ≡ some (c', alarms_changed ∷ [])))
  unfolding delete_alarm
  delete-Outcome c n = elim (Option-cases (find_by_id alarm_id c.alarms n)) [
    | inl e ↦ inl (rw e refl)
    | inr (x, e) ↦ inr (_, deletes c n x e)
  ]

  enable-Outcome :
      (c : Configuration D) (n : ℕ) (b : Bool) → Outcome c (change_alarm c n (λ a. enable a b))
  unfolding change_alarm enable
  enable-Outcome c n b = elim (Option-cases (get_elem? c.alarms n)) [
    | inl e ↦ inl (rw e refl)
    | inr (x, e) ↦ inr ((change_alarm c n (λ a. enable a b)).0, rw e refl)
  ]

  set_time-Outcome :
      (c : Configuration D) (n t : ℕ) → Outcome c (change_alarm c n (λ a. set_time a t))
  unfolding change_alarm set_time
  set_time-Outcome c n t = elim (Option-cases (get_elem? c.alarms n)) [
    | inl e ↦ inl (rw e refl)
    | inr (x, e) ↦ inr ((change_alarm c n (λ a. set_time a t)).0, rw e refl)
  ]

  step-Follows : (k : Clock D) (e : Call) → Follows k → Follows (step k e)
  unfolding step add_alarm
  step-Follows k (adds a) h = checked (add_alarm k.configuration a).0 k.dispatcher
  step-Follows k (removes n) h = elim (delete-Outcome k.configuration n) [
    | inl e ↦ rw (step, e) h
    | inr (c', e) ↦ rw (step, e) (checked c' k.dispatcher)
  ]
  step-Follows k (enables n b) h = after-Follows k _ (enable-Outcome k.configuration n b) h
  step-Follows k (sets_time n t) h = after-Follows k _ (set_time-Outcome k.configuration n t) h

  steps-Follows : (k : Clock D) (es : List Call) → Follows k → Follows (steps k es)
  unfolding steps
  steps-Follows k [] h = h
  steps-Follows k (e ∷ es) h = steps-Follows (step k e) es (step-Follows k e h)

  -- From the start of the dispatcher on, whatever alarms are added, deleted, enabled, disabled or set
  -- to another time at an instant, also with ids that are there already, the dispatcher waits for the
  -- next instance of an enabled alarm of the store that none of the enabled ones precedes, or its
  -- timer is stopped and none is enabled.
  pub started-Follows : (c : Configuration D) (es : List Call) → Follows (steps (started c) es)
  unfolding started
  started-Follows c es =
      steps-Follows (started c) es (checked c (record { upcoming_alarm = none; timer = none }))
