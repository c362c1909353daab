-- ===== src/Calendar.antt =====
-- What the code takes from QDate, QTime and QDateTime. A QDate is its Julian day number, a valid
-- QTime the milliseconds since midnight, and a QDateTime the pair. The week and the time zone are
-- Qt's: a `Calendar` is a parameter, with the documented behaviour of QDate as its laws.
use digital_rooster_gui.Base.{ℕ, zero, suc, ◌+◌, ◌-◌, ◌*◌, ◌%◌, ◌≤◌, ◌<◌, ◌≡◌, ◌⊎◌, ◌∙◌, ap, arith}

pub record DateTime : Type 0 where
  pub date : ℕ
  pub time : ℕ

-- QDate::dayOfWeek counts from 1 for Monday to 7 for Sunday.
abbrev pub saturday : ℕ
saturday = 6

abbrev pub sunday : ℕ
sunday = 7

pub record Calendar : Type 0 where
  pub day_of_week : ℕ → ℕ
  pub to_msecs_since_epoch : DateTime → ℕ
  pub first_day : (d : ℕ) → 1 ≤ day_of_week d
  pub last_day : (d : ℕ) → day_of_week d ≤ 7
  pub next_day : (d : ℕ) → day_of_week (d + 1) ≡ day_of_week d % 7 + 1

-- `t` is not after `u`.
abbrev pub NotAfter : DateTime → DateTime → Type 0
NotAfter t u = (t.date < u.date) ⊎ ((t.date ≡ u.date) × (t.time ≤ u.time))

abbrev pub msecs_per_day : ℕ
msecs_per_day = 86400000

-- The instant on a clock without shifts, in milliseconds.
abbrev pub stamp : DateTime → ℕ
stamp t = t.date * msecs_per_day + t.time

-- The zone's offset is the same at both instants.
abbrev pub SameOffset : Calendar → DateTime → DateTime → Type 0
SameOffset c t u = c.to_msecs_since_epoch t + stamp u ≡ c.to_msecs_since_epoch u + stamp t

-- The weekday `n` days from `d`.
pub day_of_week-add :
    (c : Calendar) (d n : ℕ) → c.day_of_week (d + n) ≡ (c.day_of_week d + n - 1) % 7 + 1
day_of_week-add c d zero =
    ap c.day_of_week (let e : d + 0 ≡ d = omega arith in e)
    ∙ omega (arith, c.first_day d, c.last_day d)
day_of_week-add c d (suc n) =
    ap c.day_of_week (let e : d + suc n ≡ d + n + 1 = omega arith in e)
    ∙ omega (arith, c.next_day (d + n), day_of_week-add c d n, c.first_day d, c.last_day d)
