-- ===== src/Dispatcher/Upcoming.antt =====
-- Which alarm the dispatcher waits for.
use digital_rooster_gui.Base.{
  ℕ, ◌≡◌, ◌⊎◌, inl, inr, Bool, true, false, List, [], ◌∷◌, none, some, arith, All, All-mono, Elem,
  Bool-cases,
}
use digital_rooster_gui.Base.Sorting.{sort_head, IsLeast, comap-IsStrictWeakOrder}
use digital_rooster_gui.Calendar.{Calendar, DateTime}
use digital_rooster_gui.Schedule.{less, get_next_instance}
use digital_rooster_gui.Schedule.Earliest.{get_next_instance-IsDue}
use digital_rooster_gui.Schedule.Order.{less-IsStrictWeakOrder, less-eq-sooner, instant, sooner}
use digital_rooster_gui.Dispatcher.{
  Heap, Dispatcher, get_upcoming_alarm, check_alarms, Signal, upcoming_alarm_info_changed,
}
use digital_rooster_gui.Base.Int.{sub_ℕ, int32}

module _ (c : Calendar) (now : DateTime) (heap : Heap) where
  abbrev pointer_less : ℕ → ℕ → Bool
  pointer_less p q = less c now (heap p) (heap q)

  upcoming-IsLeast :
      (alarms : List ℕ)
      → ((alarms ≡ []) × (get_upcoming_alarm c now heap alarms ≡ none))
        ⊎ ((p : ℕ) × (get_upcoming_alarm c now heap alarms ≡ some p)
            × IsLeast pointer_less p alarms)
  unfolding get_upcoming_alarm
  upcoming-IsLeast alarms =
      sort_head pointer_less
        (comap-IsStrictWeakOrder heap (less c now) (less-IsStrictWeakOrder c now)) alarms

  -- `p` rings, and no alarm of the list that rings does so before it.
  abbrev pub IsNext : ℕ → List ℕ → Type 0
  IsNext p alarms =
      Elem p alarms
      × ((heap p).enabled ≡ true)
      × All (λ q. sooner (instant c now (heap q)) (instant c now (heap p)) ≡ false) alarms

  abbrev pub NoneEnabled : List ℕ → Type 0
  NoneEnabled alarms = All (λ q. (heap q).enabled ≡ false) alarms

  abbrev pub Armed : List ℕ → Dispatcher × List Signal → Type 0
  Armed alarms (d, signals) =
      (p : ℕ) × (t : DateTime) × IsNext p alarms
      × (get_next_instance c now (heap p) ≡ some t)
      × (d.upcoming_alarm ≡ some p)
      × (d.timer ≡ some (int32 (sub_ℕ (c.to_msecs_since_epoch t) (c.to_msecs_since_epoch now))))
      × (signals ≡ upcoming_alarm_info_changed (some t) ∷ [])

  abbrev pub Disarmed : List ℕ → Dispatcher × List Signal → Type 0
  Disarmed alarms (d, signals) =
      NoneEnabled alarms × (d.timer ≡ none) × (signals ≡ upcoming_alarm_info_changed none ∷ [])

  -- Only a disabled alarm does not come before a disabled one.
  last : (q p : ℕ) → pointer_less q p ≡ false → (heap p).enabled ≡ false → (heap q).enabled ≡ false
  unfolding less
  last q p h off = ground arith

  -- After `check_alarms` either no alarm of the store is enabled, the timer is stopped and the
  -- empty info is sent, or the upcoming alarm is an enabled one of the store that none of the
  -- enabled ones precedes, and the timer and the info are set for its next instance.
  pub check_alarms_outcome :
      (alarms : List ℕ) (d : Dispatcher)
      → Armed alarms (check_alarms c now heap alarms d)
        ⊎ Disarmed alarms (check_alarms c now heap alarms d)
  unfolding check_alarms
  check_alarms_outcome alarms d = elim (upcoming-IsLeast alarms) [
    | inl (empty, e) ↦ inr (rw empty tt, rw (e, check_alarms), rw (e, check_alarms))
    | inr (p, e, least) ↦ elim (Bool-cases (heap p).enabled) [
      | inl on ↦
          let (t, due, _, _) = get_next_instance-IsDue c now (heap p) on in
          inl (
            p,
            t,
            (least.0, on, All-mono _ _ alarms (λ q h. rw (← less-eq-sooner) h) least.1),
            due,
            ground (arith, e, on, due),
            ground (arith, e, on, due),
            ground (arith, e, on, due),
          )
      | inr off ↦ inr (
        All-mono _ _ alarms (λ q h. last q p h off) least.1,
        ground (arith, e, off),
        ground (arith, e, off),
      )
    ]
  ]
