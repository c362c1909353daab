-- ===== src/Podcast/Unique.antt =====
-- The invariant of a podcast source.
use digital_rooster_gui.Base.{
  ℕ, ◌≤◌, ◌<◌, ◌≡◌, ◌≢◌, refl, sym, ◌⊎◌, inl, inr, String, Bool, List, [], ◌∷◌, none, some, arith,
  length, All, Bool-cases, Option-cases, eq_iff, subst,
}
use digital_rooster_gui.Base.Sorting.{IsStrictWeakOrder}
use digital_rooster_gui.Playable.{PodcastEpisode, get_guid}
use digital_rooster_gui.Podcast.{
  PodcastSource, find_episode, get_episode_by_id, insert_sorted, pop_back, insert_episode,
  add_episode,
}
use digital_rooster_gui.Podcast.Newest.{
  IsSorted, IsNewest, insert_episode-IsNewest, All-insert_sorted,
}

abbrev pub Differs : String → List PodcastEpisode → Type 0
Differs id es = All (λ y. get_guid y ≢ id) es

abbrev pub Unique : List PodcastEpisode → Type 0
Unique [] = Unit
Unique (x ∷ xs) = Differs (get_guid x) xs × Unique xs

-- A lookup that fails has met every episode.
find_episode-none :
    (id : String) (es : List PodcastEpisode) → find_episode id es ≡ none → Differs id es
unfolding find_episode
find_episode-none id [] h = tt
find_episode-none id (x ∷ xs) h = (
  λ e. ground (arith, eq_iff (get_guid x) id),
  find_episode-none id xs (ground (arith, eq_iff (get_guid x) id)),
)

insert_sorted-Unique :
    (earlier : ℕ → ℕ → Bool) (e : PodcastEpisode) (es : List PodcastEpisode)
    → Differs (get_guid e) es
    → Unique es
    → Unique (insert_sorted earlier e es)
unfolding insert_sorted
insert_sorted-Unique earlier e [] d u = (tt, tt)
insert_sorted-Unique earlier e (x ∷ xs) d u =
    elim (Bool-cases (earlier e.publication_date x.publication_date)) [
      | inl h ↦
          subst Unique
            (let q : x ∷ insert_sorted earlier e xs ≡ insert_sorted earlier e (x ∷ xs) = rw h in q)
            (
              All-insert_sorted earlier _ e xs (λ p. d.0 (sym p)) u.0,
              insert_sorted-Unique earlier e xs d.1 u.1,
            )
      | inr h ↦
          subst Unique (let q : e ∷ x ∷ xs ≡ insert_sorted earlier e (x ∷ xs) = rw h in q) (d, u)
    ]

All-pop_back :
    (P : PodcastEpisode → Type 0) (es : List PodcastEpisode) → All P es → All P (pop_back es)
unfolding pop_back
All-pop_back P [] h = tt
All-pop_back P (x ∷ []) h = tt
All-pop_back P (x ∷ y ∷ ys) h = (h.0, All-pop_back P (y ∷ ys) h.1)

pop_back-Unique : (es : List PodcastEpisode) → Unique es → Unique (pop_back es)
unfolding pop_back
pop_back-Unique [] u = tt
pop_back-Unique (x ∷ []) u = tt
pop_back-Unique (x ∷ y ∷ ys) u = (All-pop_back _ (y ∷ ys) u.0, pop_back-Unique (y ∷ ys) u.1)

insert_episode-Unique :
    (earlier : ℕ → ℕ → Bool) (max : ℕ) (e : PodcastEpisode) (es : List PodcastEpisode)
    → Differs (get_guid e) es
    → Unique es
    → Unique (insert_episode earlier max e es)
unfolding insert_episode
insert_episode-Unique earlier max e es d u =
    let all = insert_sorted-Unique earlier e es d u in
    ground (arith, pop_back-Unique (insert_sorted earlier e es))

-- The episodes of a source are sorted, newest first, no two have the same guid, and they are within
-- a limit that is not zero.
pub record IsValid (earlier : ℕ → ℕ → Bool) (s : PodcastSource) : Type 0 where
  pub sorted : IsSorted earlier s.episodes
  pub unique : Unique s.episodes
  pub bounded : length s.episodes ≤ s.max_episodes
  pub allowed : 0 < s.max_episodes

module _ (earlier : ℕ → ℕ → Bool) (order : IsStrictWeakOrder earlier) where
  -- What add_episode does to a valid source: an episode whose guid is there changes nothing and has
  -- no effect; with any other the source is valid again, and the episodes that it has are the newest
  -- of those that it had and the new one.
  pub add_episode-IsValid :
      (s : PodcastSource) (e : PodcastEpisode)
      → IsValid earlier s
      → IsValid earlier (add_episode earlier s e).0
        × (((x : PodcastEpisode) × (get_episode_by_id s (get_guid e) ≡ some x)
              × (add_episode earlier s e ≡ (s, [])))
            ⊎ ((dropped : List PodcastEpisode) × Differs (get_guid e) s.episodes
                × IsNewest earlier s.max_episodes
                    (e ∷ s.episodes)
                    (add_episode earlier s e).0.episodes
                    dropped))
  unfolding add_episode get_episode_by_id
  add_episode-IsValid s e v = elim (Option-cases (find_episode (get_guid e) s.episodes)) [
    | inl new ↦
        let d = find_episode-none (get_guid e) s.episodes new in
        let (dropped, n) =
          insert_episode-IsNewest earlier s.max_episodes e s.episodes order v.sorted v.bounded in
        rw (new, add_episode)
          (
            record {
              sorted = n.sorted;
              unique = insert_episode-Unique earlier s.max_episodes e s.episodes d v.unique;
              bounded = n.bounded;
              allowed = v.allowed;
            },
            inr (dropped, d, n),
          )
    | inr (x, seen) ↦ rw (seen, add_episode) (v, inl (x, refl, refl))
  ]
