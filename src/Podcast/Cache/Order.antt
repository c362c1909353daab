-- ===== src/Podcast/Cache/Order.antt =====
-- Episodes that are added one by one, newest first.
use mathlib.Core.List.{append-nil}
use digital_rooster_gui.Base.{
  ℕ, ◌+◌, ◌≤◌, ◌≡◌, refl, sym, ap, ◌∙◌, Bool, true, List, [], ◌∷◌, ◌++◌, none, String, arith,
  length, length-append, All, All-split, eq_iff,
}
use digital_rooster_gui.Playable.{PodcastEpisode, get_guid}
use digital_rooster_gui.Podcast.{
  PodcastSource, find_episode, get_episode_by_id, insert_sorted, trim, insert_episode, add_episode,
}
use digital_rooster_gui.Podcast.Restore.{restore_one, read_episodes_cache}
use digital_rooster_gui.Podcast.Unique.{Unique, Differs}

module _ (earlier : ℕ → ℕ → Bool) where
  abbrev pub IsNewer : PodcastEpisode → PodcastEpisode → Type 0
  IsNewer x y = earlier y.publication_date x.publication_date ≡ true

  -- Strictly newest first.
  abbrev pub Falls : List PodcastEpisode → Type 0
  Falls [] = Unit
  Falls (x ∷ xs) = All (IsNewer x) xs × Falls xs

  -- The last of a falling list goes to the end.
  insert_sorted-last :
      (e : PodcastEpisode) (front : List PodcastEpisode)
      → All (λ x. IsNewer x e) front
      → insert_sorted earlier e front ≡ front ++ e ∷ []
  unfolding insert_sorted
  insert_sorted-last e [] h = refl
  insert_sorted-last e (x ∷ xs) h = rw (h.0, insert_sorted-last e xs h.1)

  insert_episode-last :
      (max : ℕ) (e : PodcastEpisode) (front : List PodcastEpisode)
      → All (λ x. IsNewer x e) front
      → length front + 1 ≤ max
      → insert_episode earlier max e front ≡ front ++ e ∷ []
  unfolding insert_episode trim
  insert_episode-last max e front h l =
      ground (arith, insert_sorted-last e front h, length-append front (e ∷ []))

  find_episode-absent :
      (id : String) (es : List PodcastEpisode) → Differs id es → find_episode id es ≡ none
  unfolding find_episode
  find_episode-absent id [] d = refl
  find_episode-absent id (x ∷ xs) d =
      ground (arith, d.0, eq_iff (get_guid x) id, find_episode-absent id xs d.1)

  -- What holds of the members of a list that stand before a given one.
  Falls-split :
      (front : List PodcastEpisode) (e : PodcastEpisode) (rest : List PodcastEpisode)
      → Falls (front ++ e ∷ rest)
      → All (λ x. IsNewer x e) front
  Falls-split [] e rest h = tt
  Falls-split (x ∷ xs) e rest h = ((All-split _ xs (e ∷ rest) h.0).1.0, Falls-split xs e rest h.1)

  Unique-split :
      (front : List PodcastEpisode) (e : PodcastEpisode) (rest : List PodcastEpisode)
      → Unique (front ++ e ∷ rest)
      → Differs (get_guid e) front
  Unique-split [] e rest h = tt
  Unique-split (x ∷ xs) e rest h =
      (λ q. (All-split _ xs (e ∷ rest) h.0).1.0 (sym q), Unique-split xs e rest h.1)

  add_episode-new :
      (s : PodcastSource) (e : PodcastEpisode)
      → find_episode (get_guid e) s.episodes ≡ none
      → (add_episode earlier s e).0
        ≡ record s { episodes = insert_episode earlier s.max_episodes e s.episodes }
  unfolding add_episode get_episode_by_id
  add_episode-new s e h = rw (h, add_episode)

  restore_one-last :
      (s : PodcastSource) (e : PodcastEpisode)
      → All (λ x. IsNewer x e) s.episodes
      → Differs (get_guid e) s.episodes
      → length s.episodes + 1 ≤ s.max_episodes
      → (restore_one earlier s e).0 ≡ record s { episodes = s.episodes ++ e ∷ [] }
  unfolding restore_one get_episode_by_id
  restore_one-last s e h d l =
      let absent = find_episode-absent (get_guid e) s.episodes d in
      rw absent (
        add_episode-new s e absent
        ∙ ap (λ k. record s { episodes = k }) (insert_episode-last s.max_episodes e s.episodes h l))

  regroup :
      (front : List PodcastEpisode) (e : PodcastEpisode) (es : List PodcastEpisode)
      → (front ++ e ∷ []) ++ es ≡ front ++ e ∷ es
  regroup [] e es = refl
  regroup (x ∷ front) e es = ap (λ l. x ∷ l) (regroup front e es)

  -- Episodes that fall strictly, have different guids and fit the limit are appended as they are.
  pub read_episodes_cache-append :
      (s : PodcastSource) (es : List PodcastEpisode)
      → Falls (s.episodes ++ es)
      → Unique (s.episodes ++ es)
      → length (s.episodes ++ es) ≤ s.max_episodes
      → (read_episodes_cache earlier s es).0 ≡ record s { episodes = s.episodes ++ es }
  unfolding read_episodes_cache
  read_episodes_cache-append s [] f u l = rw append-nil
  read_episodes_cache-append s (e ∷ es) f u l =
      let one =
        restore_one-last s e (Falls-split s.episodes e es f) (Unique-split s.episodes e es u)
          (omega (arith, length-append s.episodes (e ∷ es))) in
      let same = regroup s.episodes e es in
      rw (one) (
        read_episodes_cache-append (record s { episodes = s.episodes ++ e ∷ [] }) es (rw same f)
          (rw same u) (rw same l)
        ∙ ap (λ l. record s { episodes = l }) same)
