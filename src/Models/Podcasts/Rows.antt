-- ===== src/Models/Podcasts/Rows.antt =====
-- The rows of the podcast sources after a call of the model.
use digital_rooster_gui.Base.{
  ℕ, zero, suc, ◌<◌, ◌≡◌, ◌≢◌, refl, List, [], ◌∷◌, ◌++◌, some, arith, length, false, get_elem?,
  take, drop, ltb, leb, if◌then◌else◌,
}
use digital_rooster_gui.Base.Int.{pos}
use digital_rooster_gui.Podcast
use digital_rooster_gui.Podcast.{PodcastSource, purge_episodes, purge_icon_cache}
use digital_rooster_gui.Configuration.{Configuration, Signal}
use digital_rooster_gui.Models.Rows.{at, check_selection, guarded}
use digital_rooster_gui.Models.Podcasts.{
  Notice, change_row, purge, erased, remove, remove_podcast_source_by_index,
  get_podcast_source_by_index, get_episodes, row_count,
}

changed_row :
    (ss : List PodcastSource) (i : ℕ) (s s' : PodcastSource)
    → get_elem? ss i ≡ some s
    → (get_elem? (change_row ss i s') i ≡ some s')
      × (length (change_row ss i s') ≡ length ss)
      × (i < length ss)
unfolding change_row
changed_row [] i s s' h = absurd (ground arith)
changed_row (x ∷ xs) zero s s' h = (refl, refl, omega arith)
changed_row (x ∷ xs) (suc i) s s' h =
    let (there, same, inside) = changed_row xs i s s' h in
    (there, omega (arith, same), omega (arith, inside))

other_row :
    (ss : List PodcastSource) (i j : ℕ) (s' : PodcastSource)
    → j ≢ i
    → get_elem? (change_row ss i s') j ≡ get_elem? ss j
unfolding change_row
other_row [] i j s' n = refl
other_row (x ∷ xs) zero zero s' n = absurd (n refl)
other_row (x ∷ xs) zero (suc j) s' n = refl
other_row (x ∷ xs) (suc i) zero s' n = refl
other_row (x ∷ xs) (suc i) (suc j) s' n = other_row xs i j s' (λ e. n (omega (arith, e)))

purge_empties : (s : PodcastSource) → (Podcast.purge s).0.episodes ≡ []
unfolding Podcast.purge purge_episodes purge_icon_cache
purge_empties s = ground arith

erased_row :
    {A : Type 0} (xs : List A) (i j : ℕ)
    → get_elem? (take i xs ++ drop (suc i) xs) j ≡ get_elem? xs (if ltb j i then j else suc j)
erased_row [] zero zero = refl
erased_row [] zero (suc j) = refl
erased_row [] (suc i) j = refl
erased_row (x ∷ xs) zero j = ground arith
erased_row (x ∷ xs) (suc i) zero = ground arith
erased_row (x ∷ xs) (suc i) (suc j) = ground (arith, erased_row xs i j)

length-erased :
    {A : Type 0} (xs : List A) (i : ℕ)
    → i < length xs
    → suc (length (take i xs ++ drop (suc i) xs)) ≡ length xs
length-erased [] i h = absurd (omega arith)
length-erased (x ∷ xs) zero h = refl
length-erased (x ∷ xs) (suc i) h = omega (arith, length-erased xs i (omega arith))

module _ {D : Type 0} where
  -- Purging a row that exists leaves no episode in it, and changes neither the number of rows nor
  -- any other row.
  pub purge-row :
      (c : Configuration D) (i j : ℕ) (s : PodcastSource)
      → get_elem? c.podcast_sources i ≡ some s
      → j ≢ i
      → let c' = (purge c (pos i)).0 in
        (get_episodes c' (pos i) ≡ some (some []))
        × (row_count c' ≡ row_count c)
        × (get_podcast_source_by_index c' (pos j) ≡ get_podcast_source_by_index c (pos j))
  unfolding purge get_episodes get_podcast_source_by_index row_count at check_selection guarded
  purge-row c i j s h n =
      let s' = (Podcast.purge s).0 in
      let (there, same, inside) = changed_row c.podcast_sources i s s' h in
      let outside : leb (length c.podcast_sources) i ≡ false = ground arith in
      rw (h, there, same, outside, purge_empties s)
        (refl, refl, other_row c.podcast_sources i j s' n)

  -- Removing a row that exists, the view is told of it, the rows before it keep their number, the
  -- rows after it move up by one, and there is one row less.
  pub remove-row :
      (c : Configuration D) (i j : ℕ)
      → i < row_count c
      → (c' : Configuration D) × (remove c (pos i)
          ≡ some (
            c',
            Signal.podcast_sources_changed ∷ [],
            Notice.begin_remove_rows (pos i) ∷ Notice.end_remove_rows ∷ [],
          ))
        × (suc (row_count c') ≡ row_count c)
        × (get_podcast_source_by_index c' (pos j)
            ≡ get_podcast_source_by_index c (pos (if ltb j i then j else suc j)))
  unfolding remove remove_podcast_source_by_index get_podcast_source_by_index row_count at
      check_selection
  remove-row c i j h =
      let outside : leb (length c.podcast_sources) i ≡ false = ground arith in
      (
        erased c (pos i),
        rw (remove, remove_podcast_source_by_index, outside) refl,
        length-erased c.podcast_sources i h,
        erased_row c.podcast_sources i j,
      )
