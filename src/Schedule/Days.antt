-- ===== src/Schedule/Days.antt =====
-- The dates that the cases of `get_next_instance` compute.
use digital_rooster_gui.Base.{ℕ, ◌+◌, ◌-◌, ◌%◌, ◌≤◌, ◌<◌, ◌≡◌, ◌∙◌, ap, Bool, arith, if◌then◌else◌}
use digital_rooster_gui.Calendar.{Calendar, day_of_week-add}
use digital_rooster_gui.Alarm.{Period, once, daily, weekend, workdays}
use digital_rooster_gui.Schedule.{daily_date, weekend_date, workdays_date, next_date}

-- The days on which an alarm of that period may ring.
abbrev pub Allowed : Calendar → Period → ℕ → Type 0
Allowed c once d = Unit {0}
Allowed c daily d = Unit {0}
Allowed c weekend d = 6 ≤ c.day_of_week d
Allowed c workdays d = c.day_of_week d ≤ 5

-- The first day that is not over for the alarm.
abbrev pub from_day : ℕ → Bool → ℕ
from_day today passed = if passed then today + 1 else today

-- A date that is allowed, not before `from`, and before no other such date.
abbrev pub IsFirst : (ℕ → Type 0) → ℕ → ℕ → Type 0
IsFirst P from e = (from ≤ e) × P e × ((d : ℕ) → from ≤ d → P d → e ≤ d)

module _ (c : Calendar) where
  -- Days counted from one whose weekday is known.
  day_between : (d e : ℕ) → d ≤ e → c.day_of_week e ≡ (c.day_of_week d + (e - d) - 1) % 7 + 1
  day_between d e h =
      ap c.day_of_week (let p : e ≡ d + (e - d) = omega arith in p) ∙ day_of_week-add c d (e - d)

  to_saturday :
      (d : ℕ)
      → c.day_of_week d < 6
      → IsFirst (λ e. 6 ≤ c.day_of_week e) d (d + (6 - c.day_of_week d))
  to_saturday d h = (
    omega arith,
    omega (arith, day_of_week-add c d (6 - c.day_of_week d), c.first_day d),
    λ e le a. omega (arith, day_between d e le, c.first_day d, c.last_day e),
  )

  to_monday :
      (d : ℕ)
      → 6 ≤ c.day_of_week d
      → IsFirst (λ e. c.day_of_week e ≤ 5) d (d + (7 - c.day_of_week d + 1))
  to_monday d h = (
    omega arith,
    omega (arith, day_of_week-add c d (7 - c.day_of_week d + 1), c.last_day d),
    λ e le a. omega (arith, day_between d e le, c.last_day d),
  )

  pub weekend_date-IsFirst :
      (today : ℕ) (passed : Bool)
      → IsFirst (λ e. 6 ≤ c.day_of_week e) (from_day today passed) (weekend_date c today passed)
  unfolding weekend_date
  weekend_date-IsFirst today passed = (
    ground arith,
    ground (arith, to_saturday today, to_saturday (today + 1), c.next_day today),
    λ d h a. ground (
      arith,
      c.first_day today,
      c.next_day today,
      c.first_day (today + 1),
      c.last_day d,
      day_between today d,
      day_between (today + 1) d,
    ),
  )

  pub workdays_date-IsFirst :
      (today : ℕ) (passed : Bool)
      → IsFirst (λ e. c.day_of_week e ≤ 5) (from_day today passed) (workdays_date c today passed)
  unfolding workdays_date
  workdays_date-IsFirst today passed = (
    ground (arith, c.last_day today, c.last_day (today + 1)),
    ground (arith, c.next_day today, c.last_day today, to_monday today, to_monday (today + 1)),
    λ d h a. ground (
      arith,
      c.first_day today,
      c.next_day today,
      c.last_day (today + 1),
      c.last_day today,
      day_between today d,
      day_between (today + 1) d,
      to_monday today,
      to_monday (today + 1),
    ),
  )

pub next_date-IsFirst :
    (c : Calendar) (p : Period) (today : ℕ) (passed : Bool)
    → IsFirst (Allowed c p) (from_day today passed) (next_date c p today passed)
unfolding next_date daily_date
next_date-IsFirst c once today passed = (omega arith, tt, λ d h a. h)
next_date-IsFirst c daily today passed = (omega arith, tt, λ d h a. h)
next_date-IsFirst c weekend today passed = weekend_date-IsFirst c today passed
next_date-IsFirst c workdays today passed = workdays_date-IsFirst c today passed

-- No date is more than a week away.
pub next_date-le :
    (c : Calendar) (p : Period) (today : ℕ) (passed : Bool) → next_date c p today passed ≤ today + 6
unfolding next_date daily_date weekend_date workdays_date
next_date-le c p today passed = ground (
  arith,
  c.first_day today,
  c.last_day today,
  c.next_day today,
  c.first_day (today + 1),
  day_of_week-add c (today + 1) (7 - c.day_of_week today + 1),
  day_of_week-add c today (7 - c.day_of_week today + 1),
)
