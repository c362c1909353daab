-- ===== src/Schedule/Order.antt =====
-- `operator<` on alarms.
use digital_rooster_gui.Base.{ℕ, ◌≡◌, Bool, true, false, Option, none, some, arith, ltb}
use digital_rooster_gui.Base.Sorting.{IsStrictWeakOrder}
use digital_rooster_gui.Calendar.{Calendar, DateTime}
use digital_rooster_gui.Alarm.{Alarm}
use digital_rooster_gui.Schedule.{get_next_instance, less}
use digital_rooster_gui.Schedule.Earliest.{get_next_instance-none}

-- When an alarm rings next, in milliseconds since the epoch.
pub instant : Calendar → DateTime → Alarm → Option ℕ
instant c now alm = elim (get_next_instance c now alm) [
  | none ↦ none
  | some t ↦ some (c.to_msecs_since_epoch t)
]

-- An alarm that never rings comes last.
abbrev pub sooner : Option ℕ → Option ℕ → Bool
sooner (some m) (some n) = ltb m n
sooner (some m) none = true
sooner none _ = false

pub less-eq-sooner :
    (c : Calendar) (now : DateTime) (x y : Alarm)
    → less c now x y ≡ sooner (instant c now x) (instant c now y)
unfolding less instant
less-eq-sooner c now x y =
    ground (arith, get_next_instance-none c now x, get_next_instance-none c now y)

sooner_trans : (x y z : Option ℕ) → sooner x y ≡ true → sooner y z ≡ true → sooner x z ≡ true
sooner_trans x y z h k = ground arith

sooner_incomparable :
    (x y z : Option ℕ) → sooner x y ≡ false → sooner y z ≡ false → sooner x z ≡ false
sooner_incomparable x y z h k = ground arith

sooner_irrefl : (x : Option ℕ) → sooner x x ≡ false
sooner_irrefl x = ground arith

-- At one instant the comparison of alarms is a strict weak order, which std::sort requires.
pub less-IsStrictWeakOrder : (c : Calendar) (now : DateTime) → IsStrictWeakOrder (less c now)
less-IsStrictWeakOrder c now = record {
  irreflexive = λ x. ground (arith, less-eq-sooner c now x x, sooner_irrefl (instant c now x));
  transitive = λ x y z h k.
      ground (arith, less-eq-sooner c now x y, less-eq-sooner c now y z, less-eq-sooner c now x z);
  incomparable = λ x y z h k.
      ground (arith, less-eq-sooner c now x y, less-eq-sooner c now y z, less-eq-sooner c now x z);
}
