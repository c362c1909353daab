-- ===== src/Double.antt =====
-- The floating point numbers of the source: a parameter, with the operations that the code uses.
-- The only law is that of the order, for the numbers proper (no NaN).
use digital_rooster_gui.Base.{ℕ, ◌≡◌, Bool, false, if◌then◌else◌, arith}
use digital_rooster_gui.Base.Int.{ℤ}
use digital_rooster_gui.Base.Sorting.{IsStrictWeakOrder}

-- `ratio p q` is the literal p / q; `round` is qRound and `of_int` the conversion of an integer.
pub record Double (D : Type 0) : Type 0 where
  pub less : D → D → Bool
  pub add : D → D → D
  pub sub : D → D → D
  pub mul : D → D → D
  pub div : D → D → D
  pub neg : D → D
  pub log : D → D
  pub ratio : ℕ → ℕ → D
  pub of_int : ℤ → D
  pub round : D → ℤ
  pub order : IsStrictWeakOrder less
  pub zero-le-hundred : less (ratio 100 1) (ratio 0 1) ≡ false

-- std::clamp
unfoldable pub clamp {ℓ} : {A : Type ℓ} → (A → A → Bool) → A → A → A → A
clamp less v lo hi = if less v lo then lo else if less hi v then hi else v

-- A clamped value lies within its bounds, and a value within them is not changed.
pub clamp_bounds {ℓ} :
    {A : Type ℓ} (less : A → A → Bool) (v lo hi : A)
    → IsStrictWeakOrder less
    → less hi lo ≡ false
    → (less (clamp less v lo hi) lo ≡ false) × (less hi (clamp less v lo hi) ≡ false)
unfolding clamp
clamp_bounds less v lo hi o h = ground (arith, o.irreflexive lo, o.irreflexive hi)

pub clamp_within {ℓ} :
    {A : Type ℓ} (less : A → A → Bool) (v lo hi : A)
    → less v lo ≡ false
    → less hi v ≡ false
    → clamp less v lo hi ≡ v
unfolding clamp
clamp_within less v lo hi h k = ground arith
