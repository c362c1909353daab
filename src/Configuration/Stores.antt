-- ===== src/Configuration/Stores.antt =====
-- Finding and deleting by id.
use digital_rooster_gui.Base.{
  ℕ, ◌≤◌, ◌<◌, ◌≡◌, refl, ◌⊎◌, inl, inr, List, [], ◌∷◌, none, some, arith, length, Bool-cases, ◌==◌,
  if◌then◌else◌,
}
use digital_rooster_gui.Configuration.{find_by_id, remove_id, delete_by_id}

module _ {T : Type 0} (get_id : T → ℕ) where
  pub find-remove_id :
      (xs : List T) (id j : ℕ)
      → find_by_id get_id (remove_id get_id xs id) j
        ≡ (if id == j then none else find_by_id get_id xs j)
  unfolding find_by_id remove_id
  find-remove_id [] id j = ground arith
  find-remove_id (x ∷ xs) id j = ground (arith, find-remove_id xs id j)

  length-remove_id-le : (xs : List T) (id : ℕ) → length (remove_id get_id xs id) ≤ length xs
  unfolding remove_id
  length-remove_id-le [] id = omega arith
  length-remove_id-le (x ∷ xs) id = ground (arith, length-remove_id-le xs id)

  -- Something is removed exactly if something is found.
  pub length-remove_id :
      (xs : List T) (id : ℕ)
      → ((find_by_id get_id xs id ≡ none) × (length (remove_id get_id xs id) ≡ length xs))
        ⊎ (((x : T) × (find_by_id get_id xs id ≡ some x))
            × (length (remove_id get_id xs id) < length xs))
  unfolding find_by_id remove_id
  length-remove_id [] id = inl (refl, refl)
  length-remove_id (x ∷ xs) id = elim (Bool-cases (get_id x == id)) [
    | inl hit ↦ inr ((x, rw hit), rw hit (omega (arith, length-remove_id-le xs id)))
    | inr miss ↦ elim (length-remove_id xs id) [
      | inl (absent, same) ↦ inl (rw miss absent, rw miss (omega arith))
      | inr ((y, found), fewer) ↦ inr ((y, rw miss found), rw miss (omega arith))
    ]
  ]

  -- Deleting an id fails exactly if no element has it. Otherwise no element of the result has it,
  -- and every other id is found as before.
  pub delete_by_id_outcome :
      (xs : List T) (id j : ℕ)
      → ((find_by_id get_id xs id ≡ none) × (delete_by_id get_id xs id ≡ none))
        ⊎ ((x : T) × (ys : List T) × (find_by_id get_id xs id ≡ some x)
            × (delete_by_id get_id xs id ≡ some ys)
            × (length ys < length xs)
            × (find_by_id get_id ys j ≡ (if id == j then none else find_by_id get_id xs j)))
  unfolding delete_by_id
  delete_by_id_outcome xs id j = elim (length-remove_id xs id) [
    | inl (absent, same) ↦ inl (absent, ground arith)
    | inr ((x, found), fewer) ↦
        inr (x, remove_id get_id xs id, found, ground arith, fewer, find-remove_id xs id j)
  ]
