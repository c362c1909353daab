-- ===== src/Models/Rows.antt =====
-- The rows of a list model: the test of a row, and std::vector::at.
use digital_rooster_gui.Base.{
  ℕ, zero, suc, ◌<◌, ◌≡◌, refl, Bool, true, false, not, List, [], ◌∷◌, Option, none, some,
  Bool-cases, inl, inr, ◌⊎◌, arith, length, get_elem?, leb, if◌then◌else◌,
}
use digital_rooster_gui.Base.Int.{ℤ, pos, negsuc}

-- `row < 0 || static_cast<size_t>(row) >= sz`, negated.
unfoldable pub check_selection {ℓ} : {A : Type ℓ} → List A → ℤ → Bool
check_selection xs (negsuc n) = false
check_selection xs (pos n) = not (leb (length xs) n)

-- `at`: the index is converted to size_t, and `none` is std::out_of_range.
unfoldable pub at {ℓ} : {A : Type ℓ} → List A → ℤ → Option A
at xs (negsuc n) = none
at xs (pos n) = get_elem? xs n

-- A row that fails the test answers `otherwise`; `none` is an exception.
unfoldable pub guarded {ℓ ℓ'} : {A : Type ℓ} → {B : Type ℓ'} → List A → ℤ → B → (A → B) → Option B
guarded xs row otherwise f =
    if check_selection xs row
    then elim (at xs row) [ none ↦ none | some x ↦ some (f x) ]
    else some otherwise

elem_at {ℓ} :
    {A : Type ℓ} (xs : List A) (n : ℕ) → n < length xs → (x : A) × (get_elem? xs n ≡ some x)
elem_at [] n h = absurd (omega arith)
elem_at (x ∷ xs) zero h = (x, refl)
elem_at (x ∷ xs) (suc n) h = elem_at xs n (omega arith)

-- `at` does not throw in a row that passes the test.
pub check_selection-at {ℓ} :
    {A : Type ℓ} (xs : List A) (row : ℤ)
    → check_selection xs row ≡ true
    → (x : A) × (at xs row ≡ some x)
unfolding check_selection at
check_selection-at xs (negsuc n) h = absurd (ground arith)
check_selection-at xs (pos n) h = elem_at xs n (ground arith)

-- The answer to a request in a row: the row exists and the answer is `f` of its element, or the
-- row fails the test and the answer is `otherwise`.
abbrev pub Shows {ℓ ℓ'} :
    {A : Type ℓ} → {B : Type ℓ'} → List A → ℤ → B → (A → B) → Option B → Type (ℓ ⊔ ℓ')
Shows {A} xs row otherwise f r =
    ((i : ℕ) × (x : A) × (row ≡ pos i) × (get_elem? xs i ≡ some x) × (r ≡ some (f x)))
    ⊎ ((check_selection xs row ≡ false) × (r ≡ some otherwise))

pub guarded-Shows {ℓ ℓ'} :
    {A : Type ℓ} {B : Type ℓ'} (xs : List A) (row : ℤ) (otherwise : B) (f : A → B)
    → Shows xs row otherwise f (guarded xs row otherwise f)
unfolding guarded check_selection at
guarded-Shows xs (negsuc n) otherwise f = inr (refl, refl)
guarded-Shows xs (pos n) otherwise f = elim (Bool-cases (leb (length xs) n)) [
  | inl h ↦ inr (rw h refl, rw h refl)
  | inr h ↦
      let (x, found) = elem_at xs n (ground arith) in inl (n, x, refl, found, rw (h, found) refl)
]
