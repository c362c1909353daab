-- ===== src/Tests/Instances.antt =====
-- Concrete values for the parameters: a calendar, JSON objects, texts, numbers, and test data.
use Prim.Native.String.{[] as nil, ◌∷◌ as cons, count}
use Prim.Native.Char.{nul}
use text.Mathlib.TextLemmas.{length-nil, length-cons}
use digital_rooster_gui.Base.{
  ℕ, zero, suc, ◌+◌, ◌-◌, ◌*◌, ◌/◌, ◌%◌, ◌≡◌, refl, ap, ◌∙◌, String, some, arith, ltb,
}
use digital_rooster_gui.Base.Int.{pos, pos_part}
use digital_rooster_gui.Base.Sorting.{IsStrictWeakOrder}
use digital_rooster_gui.Calendar.{Calendar, DateTime, stamp}
use digital_rooster_gui.Json.{Texts}
use digital_rooster_gui.Double.{Double}
pub use digital_rooster_gui.Tests.Objects.{Object, pairs, nested}

-- Day 0 is a Monday, and the zone is UTC.
abbrev pub utc : Calendar
utc = record {
  day_of_week = λ d. d % 7 + 1;
  to_msecs_since_epoch = λ t. stamp t;
  first_day = λ d. omega arith;
  last_day = λ d. omega arith;
  next_day = λ d. omega arith;
}

abbrev pub at_hour : ℕ → ℕ → DateTime
at_hour d h = record { date = d; time = h * 3600000 }

-- A number as that many characters.
abbrev pub tally : ℕ → String
tally zero = nil
tally (suc n) = cons nul (tally n)

pub count-tally : (n : ℕ) → count (tally n) ≡ n
count-tally zero = length-nil
count-tally (suc n) = length-cons nul (tally n) ∙ ap (λ k. suc k) (count-tally n)

abbrev pub tallies : Texts
tallies = record {
  url_from_encoded = λ s. some s;
  uuid_from_string = λ s. some (count s);
  uuid_to_string = tally;
  time_from_string = λ s. some (count s * 60000);
  time_to_string = λ t. tally (t / 60000);
  uuid_round_trip = λ u h. ap some (count-tally u);
  time_round_trip = λ t h. ap some (omega (arith, count-tally (t / 60000)));
}

pub ltb-IsStrictWeakOrder : IsStrictWeakOrder ltb
ltb-IsStrictWeakOrder = record {
  irreflexive = λ x. ground arith;
  transitive = λ x y z h k. ground arith;
  incomparable = λ x y z h k. ground arith;
}

-- Whole numbers stand in for the floating point ones.
abbrev pub whole : Double ℕ
whole = record {
  less = ltb;
  add = λ a b. a + b;
  sub = λ a b. a - b;
  mul = λ a b. a * b;
  div = λ a b. a;
  neg = λ a. a;
  log = λ a. a;
  ratio = λ p q. p;
  of_int = pos_part;
  round = pos;
  order = ltb-IsStrictWeakOrder;
  zero-le-hundred = refl;
}
