-- ===== src/Podcast/Restore.antt =====
-- read_episodes_cache of libsrc/podcast_serializer.cpp: the episodes of the cache file, as
-- PodcastEpisode::from_json_object made them, are merged into a source.
use digital_rooster_gui.Base.{
  ℕ, ◌≡◌, refl, inl, inr, String, Bool, List, [], ◌∷◌, ◌++◌, Option, none, some, arith, length, All,
  All-mono, Bool-cases, Option-cases, str_eq, if◌then◌else◌,
}
use digital_rooster_gui.Base.Int.{ℤ, pos, negsuc}
use digital_rooster_gui.Base.Sorting.{IsStrictWeakOrder}
use digital_rooster_gui.Playable.{PodcastEpisode, get_guid, set_position}
use digital_rooster_gui.Podcast.{
  PodcastSource, Effect, find_episode, get_episode_by_id, add_episode, episode_info_changed,
}
use digital_rooster_gui.Podcast.Newest.{IsSorted, NotEarlier}
use digital_rooster_gui.Podcast.Unique.{Unique, IsValid, add_episode-IsValid}

-- set_position on the episode that get_episode_by_id finds, which the source shares.
unfoldable pub reposition : String → ℤ → List PodcastEpisode → List PodcastEpisode
reposition id z [] = []
reposition id z (e ∷ es) =
    if str_eq (get_guid e) id then (set_position e z).0 ∷ es else e ∷ reposition id z es

merge :
    (ℕ → ℕ → Bool)
    → PodcastSource
    → PodcastEpisode
    → Option PodcastEpisode
    → PodcastSource × List Effect
merge earlier s e (some _) = (
  record s { episodes = reposition (get_guid e) (pos e.position) s.episodes },
  episode_info_changed s,
)
merge earlier s e none = add_episode earlier s e

-- The body of the loop; set_position emits data_changed once, which the source passes on.
unfoldable pub restore_one :
    (ℕ → ℕ → Bool) → PodcastSource → PodcastEpisode → PodcastSource × List Effect
unfolding merge
restore_one earlier s e = merge earlier s e (get_episode_by_id s (get_guid e))

unfoldable pub read_episodes_cache :
    (ℕ → ℕ → Bool) → PodcastSource → List PodcastEpisode → PodcastSource × List Effect
read_episodes_cache earlier s [] = (s, [])
read_episodes_cache earlier s (e ∷ es) =
    let (s', first) = restore_one earlier s e in
    let (s'', rest) = read_episodes_cache earlier s' es in (s'', first ++ rest)

-- What a new position leaves alone.
set_position_same :
    (e : PodcastEpisode) (z : ℤ)
    → (get_guid (set_position e z).0 ≡ get_guid e)
      × ((set_position e z).0.publication_date ≡ e.publication_date)
unfolding set_position get_guid
set_position_same e (pos n) = ground arith
set_position_same e (negsuc n) = ground arith

set_position_moves : (e : PodcastEpisode) (n : ℕ) → (set_position e (pos n)).0.position ≡ n
unfolding set_position
set_position_moves e n = ground arith

length-reposition :
    (id : String) (z : ℤ) (es : List PodcastEpisode) → length (reposition id z es) ≡ length es
unfolding reposition
length-reposition id z [] = refl
length-reposition id z (e ∷ es) = ground (arith, length-reposition id z es)

All-reposition :
    (P : PodcastEpisode → Type 0) (id : String) (z : ℤ) (es : List PodcastEpisode)
    → ((e : PodcastEpisode) → P e → P (set_position e z).0)
    → All P es
    → All P (reposition id z es)
unfolding reposition
All-reposition P id z [] keep h = tt
All-reposition P id z (e ∷ es) keep h = elim (Bool-cases (str_eq (get_guid e) id)) [
  | inl hit ↦ rw hit (keep e h.0, h.1)
  | inr miss ↦ rw miss (h.0, All-reposition P id z es keep h.1)
]

reposition-IsSorted :
    (earlier : ℕ → ℕ → Bool) (id : String) (z : ℤ) (es : List PodcastEpisode)
    → IsSorted earlier es
    → IsSorted earlier (reposition id z es)
unfolding reposition
reposition-IsSorted earlier id z [] s = tt
reposition-IsSorted earlier id z (e ∷ es) s = elim (Bool-cases (str_eq (get_guid e) id)) [
  | inl hit ↦ rw hit (All-mono _ _ es (λ y n. rw ((set_position_same e z).1) n) s.0, s.1)
  | inr miss ↦ rw miss (
    All-reposition (NotEarlier earlier e) id z es (λ y n. rw ((set_position_same y z).1) n) s.0,
    reposition-IsSorted earlier id z es s.1,
  )
]

reposition-Unique :
    (id : String) (z : ℤ) (es : List PodcastEpisode) → Unique es → Unique (reposition id z es)
unfolding reposition
reposition-Unique id z [] u = tt
reposition-Unique id z (e ∷ es) u = elim (Bool-cases (str_eq (get_guid e) id)) [
  | inl hit ↦ rw hit (rw ((set_position_same e z).0) u.0, u.1)
  | inr miss ↦ rw miss (
    All-reposition _ id z es (λ y n. rw ((set_position_same y z).0) n) u.0,
    reposition-Unique id z es u.1,
  )
]

find-reposition :
    (id : String) (n : ℕ) (es : List PodcastEpisode) (x : PodcastEpisode)
    → find_episode id es ≡ some x
    → find_episode id (reposition id (pos n) es) ≡ some (set_position x (pos n)).0
unfolding find_episode reposition
find-reposition id n [] x h = ground arith
find-reposition id n (e ∷ es) x h =
    ground (arith, set_position_same e (pos n), find-reposition id n es x)

-- A cached episode that the source has gets its cached position there.
pub restore_one_position :
    (earlier : ℕ → ℕ → Bool) (s : PodcastSource) (e x : PodcastEpisode)
    → get_episode_by_id s (get_guid e) ≡ some x
    → (y : PodcastEpisode) × (get_episode_by_id (restore_one earlier s e).0 (get_guid e) ≡ some y)
      × (y.position ≡ e.position)
      × (length (restore_one earlier s e).0.episodes ≡ length s.episodes)
unfolding restore_one get_episode_by_id
restore_one_position earlier s e x h = (
  (set_position x (pos e.position)).0,
  rw h (find-reposition (get_guid e) e.position s.episodes x h),
  set_position_moves x e.position,
  rw h (length-reposition (get_guid e) (pos e.position) s.episodes),
)

restore_one-IsValid :
    (earlier : ℕ → ℕ → Bool) (s : PodcastSource) (e : PodcastEpisode)
    → IsStrictWeakOrder earlier
    → IsValid earlier s
    → IsValid earlier (restore_one earlier s e).0
unfolding restore_one
restore_one-IsValid earlier s e order v = elim (Option-cases (get_episode_by_id s (get_guid e))) [
  | inl new ↦ rw new (add_episode-IsValid earlier order s e v).0
  | inr (x, seen) ↦ rw seen (record {
    sorted = reposition-IsSorted earlier (get_guid e) (pos e.position) s.episodes v.sorted;
    unique = reposition-Unique (get_guid e) (pos e.position) s.episodes v.unique;
    bounded = rw (length-reposition (get_guid e) (pos e.position) s.episodes) v.bounded;
    allowed = v.allowed;
  })
]

-- Whatever the cache file holds, a source whose episodes are sorted, unique and within a positive
-- limit has that after the file was read.
pub read_episodes_cache-IsValid :
    (earlier : ℕ → ℕ → Bool) (s : PodcastSource) (es : List PodcastEpisode)
    → IsStrictWeakOrder earlier
    → IsValid earlier s
    → IsValid earlier (read_episodes_cache earlier s es).0
unfolding read_episodes_cache
read_episodes_cache-IsValid earlier s [] order v = v
read_episodes_cache-IsValid earlier s (e ∷ es) order v =
    read_episodes_cache-IsValid earlier (restore_one earlier s e).0 es order
      (restore_one-IsValid earlier s e order v)
