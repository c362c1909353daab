-- ===== src/Base/Sorting.antt =====
-- std::sort over a comparison, and what the comparison must be for the call to be defined.
use mathlib.Core.Path.{◌≡◌, refl, subst}
use mathlib.Core.Logic.{◌⊎◌, inl, inr}
use mathlib.Core.Bool.{Bool, true, false}
use mathlib.Core.List.{List, [], ◌∷◌, Perm, head?}
use mathlib.Core.Option.{none, some}
use mathlib.Core.List.Perm
use native.Mathlib.Omega.{arith}
use digital_rooster_gui.Base.Tests.{if◌then◌else◌, Bool-cases}
use digital_rooster_gui.Base.Lists.{All, All-mono, Elem}

-- The named requirement Compare of the C++ standard.
pub record IsStrictWeakOrder {ℓ} {A : Type ℓ} (less : A → A → Bool) : Type ℓ where
  pub irreflexive : (x : A) → less x x ≡ false
  pub transitive : (x y z : A) → less x y ≡ true → less y z ≡ true → less x z ≡ true
  pub incomparable : (x y z : A) → less x y ≡ false → less y z ≡ false → less x z ≡ false

module _ {ℓ} {A : Type ℓ} (less : A → A → Bool) where
  pub insert : A → List A → List A
  insert x [] = x ∷ []
  insert x (y ∷ ys) = if less x y then x ∷ y ∷ ys else y ∷ insert x ys

  unfoldable pub sort : List A → List A
  unfolding insert
  sort [] = []
  sort (x ∷ xs) = insert x (sort xs)

  insert-perm : (x : A) (xs : List A) → Perm (insert x xs) (x ∷ xs)
  unfolding insert
  insert-perm x [] = Perm.refl (x ∷ [])
  insert-perm x (y ∷ ys) = elim (Bool-cases (less x y)) [
    | inl e ↦ rw e (Perm.refl (x ∷ y ∷ ys))
    | inr e ↦ rw e (Perm.trans (Perm.cons y (insert-perm x ys)) (Perm.swap x y ys))
  ]

  pub sort-perm : (xs : List A) → Perm (sort xs) xs
  unfolding sort
  sort-perm [] = Perm.refl []
  sort-perm (x ∷ xs) = Perm.trans (insert-perm x (sort xs)) (Perm.cons x (sort-perm xs))

-- The first of a sorted list is one of the list, and none is smaller.
abbrev pub IsLeast : {A : Type 0} → (A → A → Bool) → A → List A → Type 0
IsLeast less h xs = Elem h xs × All (λ x. less x h ≡ false) xs

module _ {A : Type 0} (less : A → A → Bool) (order : IsStrictWeakOrder less) where
  open order use {irreflexive, transitive, incomparable}

  sort_nil : (xs : List A) → sort less xs ≡ [] → xs ≡ []
  unfolding sort
  sort_nil [] e = refl
  sort_nil (x ∷ xs) e = insert_ne (sort less xs) e
    where
      insert_ne : (ys : List A) → insert less x ys ≡ [] → x ∷ xs ≡ []
      insert_ne [] e = ground arith
      insert_ne (y ∷ ys) e = ground arith

  smaller_least :
      (x y : A) (xs : List A)
      → less x y ≡ true
      → All (λ a. less a y ≡ false) xs
      → All (λ a. less a x ≡ false) xs
  smaller_least x y xs s = All-mono _ _ xs (λ a h. ground (arith, transitive a x y))

  -- Sorting a list that is not empty puts a least element first.
  pub sort-IsLeast : (xs ys : List A) (h : A) → sort less xs ≡ h ∷ ys → IsLeast less h xs
  unfolding sort
  sort-IsLeast [] ys h e = ground arith
  sort-IsLeast (x ∷ xs) ys h e = go (sort less xs) (sort_nil xs) (sort-IsLeast xs) e
    where
      go :
          (zs : List A)
          → (zs ≡ [] → xs ≡ [])
          → ((ys : List A) (h : A) → zs ≡ h ∷ ys → IsLeast less h xs)
          → insert less x zs ≡ h ∷ ys
          → IsLeast less h (x ∷ xs)
      go [] none_left ih e =
          subst (λ k. IsLeast less k (x ∷ xs)) (let e' : x ≡ h = ground arith in e')
            (rw (none_left refl) (inl refl, (irreflexive x, tt)))
      go (z ∷ zs) none_left ih e = elim (Bool-cases (less x z)) [
        | inl smaller ↦
            subst (λ k. IsLeast less k (x ∷ xs)) (let e' : x ≡ h = ground arith in e')
              (inl refl, (irreflexive x, smaller_least x z xs smaller (ih zs z refl).1))
        | inr larger ↦
            subst (λ k. IsLeast less k (x ∷ xs)) (let e' : z ≡ h = ground arith in e')
              (inr (ih zs z refl).0, (larger, (ih zs z refl).1))
      ]

  -- The first of the sorted list is a least element, and only the empty list has none.
  pub sort_head :
      (xs : List A)
      → ((xs ≡ []) × (head? (sort less xs) ≡ none))
        ⊎ ((h : A) × (head? (sort less xs) ≡ some h) × IsLeast less h xs)
  sort_head xs = go (sort less xs) refl
    where
      go :
          (zs : List A)
          → sort less xs ≡ zs
          → ((xs ≡ []) × (head? (sort less xs) ≡ none))
            ⊎ ((h : A) × (head? (sort less xs) ≡ some h) × IsLeast less h xs)
      go [] e = inl (sort_nil xs e, rw e)
      go (z ∷ zs) e = inr (z, rw e, sort-IsLeast xs zs z e)

-- A comparison of keys is a strict weak order if the comparison of what they stand for is.
pub comap-IsStrictWeakOrder {ℓ κ} :
    {A : Type ℓ} {K : Type κ} (f : K → A) (less : A → A → Bool)
    → IsStrictWeakOrder less
    → IsStrictWeakOrder (λ j k. less (f j) (f k))
comap-IsStrictWeakOrder f less o = record {
  irreflexive = λ x. o.irreflexive (f x);
  transitive = λ x y z. o.transitive (f x) (f y) (f z);
  incomparable = λ x y z. o.incomparable (f x) (f y) (f z);
}
