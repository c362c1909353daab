-- ===== src/Podcast/Newest.antt =====
-- Which episodes a source keeps, and in which order.
use mathlib.Core.List.{Perm, append-nil}
use mathlib.Core.List.Perm
use digital_rooster_gui.Base.{
  ℕ, suc, ◌-◌, ◌≤◌, ◌≡◌, refl, ap, subst, ◌⊎◌, inl, inr, Bool, true, false, List, [], ◌∷◌, ◌++◌,
  some, arith, length, All, All-mono, All-split, Bool-cases, leb, ltb, ltb→lt, ltb→ge,
}
use digital_rooster_gui.Base.Sorting.{IsStrictWeakOrder}
use digital_rooster_gui.Playable.{PodcastEpisode}
use digital_rooster_gui.Podcast.{insert_sorted, pop_back, back, trim, insert_episode}

module _ (earlier : ℕ → ℕ → Bool) where
  abbrev pub NotEarlier : PodcastEpisode → PodcastEpisode → Type 0
  NotEarlier x y = earlier x.publication_date y.publication_date ≡ false

  -- Newest first.
  abbrev pub IsSorted : List PodcastEpisode → Type 0
  IsSorted [] = Unit
  IsSorted (x ∷ xs) = All (NotEarlier x) xs × IsSorted xs

insert_sorted-perm :
    (earlier : ℕ → ℕ → Bool) (e : PodcastEpisode) (xs : List PodcastEpisode)
    → Perm (insert_sorted earlier e xs) (e ∷ xs)
unfolding insert_sorted
insert_sorted-perm earlier e [] = Perm.refl _
insert_sorted-perm earlier e (x ∷ xs) =
    elim (Bool-cases (earlier e.publication_date x.publication_date)) [
      | inl h ↦ rw h (Perm.trans (Perm.cons x (insert_sorted-perm earlier e xs)) (Perm.swap e x xs))
      | inr h ↦ rw h (Perm.refl _)
    ]

length-insert_sorted :
    (earlier : ℕ → ℕ → Bool) (e : PodcastEpisode) (xs : List PodcastEpisode)
    → length (insert_sorted earlier e xs) ≡ suc (length xs)
unfolding insert_sorted
length-insert_sorted earlier e [] = refl
length-insert_sorted earlier e (x ∷ xs) = ground (arith, length-insert_sorted earlier e xs)

-- The last element, split off.
pub pop_back-back {ℓ} :
    {A : Type ℓ} (x : A) (xs : List A)
    → (b : A) × (back (x ∷ xs) ≡ some b) × (x ∷ xs ≡ pop_back (x ∷ xs) ++ b ∷ [])
unfolding pop_back back
pop_back-back x [] = (x, refl, refl)
pop_back-back x (y ∷ ys) = let (b, e, split) = pop_back-back y ys in (b, e, ap (λ l. x ∷ l) split)

length-pop_back {ℓ} : {A : Type ℓ} (xs : List A) → length (pop_back xs) ≡ length xs - 1
unfolding pop_back
length-pop_back [] = refl
length-pop_back (x ∷ []) = refl
length-pop_back (x ∷ y ∷ ys) = omega (arith, length-pop_back (y ∷ ys))

pub All-insert_sorted :
    (earlier : ℕ → ℕ → Bool) (P : PodcastEpisode → Type 0) (e : PodcastEpisode)
    (xs : List PodcastEpisode)
    → P e
    → All P xs
    → All P (insert_sorted earlier e xs)
unfolding insert_sorted
All-insert_sorted earlier P e [] p ps = (p, tt)
All-insert_sorted earlier P e (x ∷ xs) p ps =
    elim (Bool-cases (earlier e.publication_date x.publication_date)) [
      | inl h ↦
          subst (All P)
            (let q : x ∷ insert_sorted earlier e xs ≡ insert_sorted earlier e (x ∷ xs) = rw h in q)
            (ps.0, All-insert_sorted earlier P e xs p ps.1)
      | inr h ↦
          subst (All P) (let q : e ∷ x ∷ xs ≡ insert_sorted earlier e (x ∷ xs) = rw h in q) (p, ps)
    ]

module _ (earlier : ℕ → ℕ → Bool) (order : IsStrictWeakOrder earlier) where
  open order use {irreflexive, transitive, incomparable}

  insert_sorted-IsSorted :
      (e : PodcastEpisode) (xs : List PodcastEpisode)
      → IsSorted earlier xs
      → IsSorted earlier (insert_sorted earlier e xs)
  unfolding insert_sorted
  insert_sorted-IsSorted e [] s = (tt, tt)
  insert_sorted-IsSorted e (x ∷ xs) s =
      elim (Bool-cases (earlier e.publication_date x.publication_date)) [
        | inl h ↦
            subst (IsSorted earlier)
              (let q : x ∷ insert_sorted earlier e xs ≡ insert_sorted earlier e (x ∷ xs) = rw h in
                q)
              (
                All-insert_sorted earlier (NotEarlier earlier x) e xs (asym h) s.0,
                insert_sorted-IsSorted e xs s.1,
              )
        | inr h ↦
            subst (IsSorted earlier)
              (let q : e ∷ x ∷ xs ≡ insert_sorted earlier e (x ∷ xs) = rw h in q)
              ((h, All-mono _ _ xs (λ y n. incomparable _ _ _ h n) s.0), s)
      ]
    where
      asym : {m n : ℕ} → earlier m n ≡ true → earlier n m ≡ false
      asym {m} {n} h = elim (Bool-cases (earlier n m)) [
        | inl k ↦ cc (transitive m n m h k, irreflexive m)
        | inr k ↦ k
      ]

-- In a sorted list that ends in `b` nothing is earlier than `b`.
split-IsSorted :
    (earlier : ℕ → ℕ → Bool) (xs : List PodcastEpisode) (b : PodcastEpisode)
    → IsSorted earlier (xs ++ b ∷ [])
    → IsSorted earlier xs × All (λ x. NotEarlier earlier x b) xs
split-IsSorted earlier [] b s = (tt, tt)
split-IsSorted earlier (x ∷ xs) b s =
    let (rest, oldest) = split-IsSorted earlier xs b s.1 in
    let (front, last) = All-split (NotEarlier earlier x) xs (b ∷ []) s.0 in
    ((front, rest), (last.0, oldest))

-- What `kept` and `dropped` are of the episodes `es` and the new one.
pub record IsNewest (earlier : ℕ → ℕ → Bool) (max : ℕ) (all kept dropped : List PodcastEpisode)
    : Type 0 where
  pub same : Perm (kept ++ dropped) all
  pub sorted : IsSorted earlier kept
  pub bounded : length kept ≤ max
  pub only_if_full : (dropped ≡ []) ⊎ (length kept ≡ max)
  pub older : All (λ d. All (λ k. NotEarlier earlier k d) kept) dropped

trim-IsNewest :
    (earlier : ℕ → ℕ → Bool) (max : ℕ) (all xs : List PodcastEpisode)
    → Perm xs all
    → IsSorted earlier xs
    → length xs ≤ suc max
    → (dropped : List PodcastEpisode) × IsNewest earlier max all (trim max xs) dropped
unfolding trim
trim-IsNewest earlier max all [] perm s h =
    let none_left : trim max [] ≡ [] = ground arith in
    (
      [],
      rw none_left (record {
        same = perm;
        sorted = tt;
        bounded = omega arith;
        only_if_full = inl refl;
        older = tt;
      }),
    )
trim-IsNewest earlier max all (x ∷ xs) perm s h = elim (Bool-cases (ltb max (length (x ∷ xs)))) [
  | inl full ↦
      let (b, e, split) = pop_back-back x xs in
      let (sorted, older) =
        split-IsSorted earlier (pop_back (x ∷ xs)) b (subst (IsSorted earlier) split s) in
      (
        b ∷ [],
        rw full (record {
          same = rw (← split) perm;
          sorted = sorted;
          bounded = omega (arith, length-pop_back {0} (x ∷ xs));
          only_if_full = inr (omega (arith, length-pop_back {0} (x ∷ xs), ltb→lt _ _ full));
          older = (older, tt);
        }),
      )
  | inr fits ↦ (
    [],
    rw fits (record {
      same = rw append-nil perm;
      sorted = s;
      bounded = omega (arith, ltb→ge _ _ fits);
      only_if_full = inl refl;
      older = tt;
    }),
  )
]

-- For a sorted list within its limit, the insertion keeps the newest episodes of the list and the
-- new one, sorted and within the limit: nothing is lost but, when the limit is reached, episodes
-- that are not later than any that is kept.
pub insert_episode-IsNewest :
    (earlier : ℕ → ℕ → Bool) (max : ℕ) (e : PodcastEpisode) (es : List PodcastEpisode)
    → IsStrictWeakOrder earlier
    → IsSorted earlier es
    → length es ≤ max
    → (dropped : List PodcastEpisode) × IsNewest earlier max
        (e ∷ es)
        (insert_episode earlier max e es)
        dropped
unfolding insert_episode
insert_episode-IsNewest earlier max e es order s h =
    let room : leb (length es) max ≡ true = ground arith in
    rw room (
      trim-IsNewest earlier max (e ∷ es) (insert_sorted earlier e es)
        (insert_sorted-perm earlier e es) (insert_sorted-IsSorted earlier order e es s)
        (omega (arith, length-insert_sorted earlier e es)))

-- Whatever the list, it does not grow beyond the larger of its length and the limit.
pub insert_episode_bounded :
    (earlier : ℕ → ℕ → Bool) (max : ℕ) (e : PodcastEpisode) (es : List PodcastEpisode)
    → (length (insert_episode earlier max e es) ≤ max)
      ⊎ (length (insert_episode earlier max e es) ≤ length es)
unfolding insert_episode trim
insert_episode_bounded earlier max e es =
    ground
      (arith, length-insert_sorted earlier e es, length-pop_back {0} (insert_sorted earlier e es))
