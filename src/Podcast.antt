-- ===== src/Podcast.antt =====
-- include/PodcastSource.hpp and libsrc/PodcastSource.cpp. A method returns the new source and its
-- effects, in order. `earlier` is `operator<` of QDateTime.
pub mod Newest
pub mod Unique
pub mod Icon
pub mod Restore
pub mod Stored
pub mod Cache
use digital_rooster_gui.Base.{
  ℕ, suc, ◌<◌, String, Bool, true, false, not, ◌||◌, List, [], ◌∷◌, ◌++◌, map, Option, none, some,
  length, ltb, leb, str_eq, if◌then◌else◌,
}
use digital_rooster_gui.Base.Int.{ℤ, pos, negsuc}
use digital_rooster_gui.Playable.{PodcastEpisode, get_guid, do_get_display_name}

-- Signals, calls of the source's helpers and of the file system.
pub data Effect : Type 0 where
  title_changed description_changed icon_changed data_changed : Effect
  episodes_count_changed : ℕ → Effect
  connect_episode : String → Effect
  remove_file : String → Effect
  download : String → Effect
  delete_cached_info : Effect
  start_update : Effect

-- `updater` holds the seconds that the timer of the update task was last started with, if there is a
-- task; Update.task_timer is what QTimer makes of them.
pub record PodcastSource : Type 0 where
  pub id : ℕ
  pub rss_feed_uri : String
  pub title : String
  pub description : String
  pub episodes : List PodcastEpisode
  pub last_updated : ℕ
  pub link : String
  pub icon_url : String
  pub image_file_path : String
  pub max_episodes : ℕ
  pub update_interval : ℤ
  pub updater : Option ℤ
  pub serializer : Bool

abbrev pub default_max_episodes : ℕ
default_max_episodes = 100

-- std::find_if over the episodes
unfoldable pub find_episode : String → List PodcastEpisode → Option PodcastEpisode
find_episode id [] = none
find_episode id (e ∷ es) = if str_eq (get_guid e) id then some e else find_episode id es

unfoldable pub get_episode_by_id : PodcastSource → String → Option PodcastEpisode
get_episode_by_id s id = find_episode id s.episodes

-- std::lower_bound and insert, on a list that is sorted by falling publication date.
unfoldable pub insert_sorted :
    (ℕ → ℕ → Bool) → PodcastEpisode → List PodcastEpisode → List PodcastEpisode
insert_sorted earlier e [] = e ∷ []
insert_sorted earlier e (x ∷ xs) =
    if earlier e.publication_date x.publication_date
    then x ∷ insert_sorted earlier e xs
    else e ∷ x ∷ xs

unfoldable pub pop_back {ℓ} : {A : Type ℓ} → List A → List A
pop_back [] = []
pop_back (x ∷ []) = []
pop_back (x ∷ y ∷ ys) = x ∷ pop_back (y ∷ ys)

unfoldable pub back {ℓ} : {A : Type ℓ} → List A → Option A
back [] = none
back (x ∷ []) = some x
back (x ∷ y ∷ ys) = back (y ∷ ys)

-- `episodes.back()->get_publication_date() < episode->get_publication_date()`, which is asked of a
-- list that is not empty.
older_than : (ℕ → ℕ → Bool) → Option PodcastEpisode → PodcastEpisode → Bool
older_than earlier none e = false
older_than earlier (some b) e = earlier b.publication_date e.publication_date

-- The list after the insertion in add_episode, without or with the removal of the oldest.
trim : ℕ → List PodcastEpisode → List PodcastEpisode
trim max es = if ltb max (length es) then pop_back es else es

unfoldable pub insert_episode :
    (ℕ → ℕ → Bool) → ℕ → PodcastEpisode → List PodcastEpisode → List PodcastEpisode
unfolding trim older_than
insert_episode earlier max e es =
    if leb (length es) max || older_than earlier (back es) e
    then trim max (insert_sorted earlier e es)
    else es

add_unseen :
    (ℕ → ℕ → Bool)
    → PodcastSource
    → PodcastEpisode
    → Option PodcastEpisode
    → PodcastSource × List Effect
add_unseen earlier s e (some _) = (s, [])
add_unseen earlier s e none =
    let es = insert_episode earlier s.max_episodes e s.episodes in
    (
      record s { episodes = es },
      connect_episode (get_guid e) ∷ episodes_count_changed (length es) ∷ [],
    )

unfoldable pub add_episode :
    (ℕ → ℕ → Bool) → PodcastSource → PodcastEpisode → PodcastSource × List Effect
unfolding add_unseen
add_episode earlier s e = add_unseen earlier s e (get_episode_by_id s (get_guid e))

unfoldable pub set_update_interval : PodcastSource → ℤ → PodcastSource
set_update_interval s interval = record s {
  update_interval = interval;
  updater = elim s.updater [ none ↦ none | some _ ↦ some interval ];
}

unfoldable pub set_description : PodcastSource → String → PodcastSource × List Effect
set_description s text = (record s { description = text }, description_changed ∷ data_changed ∷ [])

unfoldable pub set_last_updated : PodcastSource → ℕ → PodcastSource
set_last_updated s date = record s { last_updated = date }

unfoldable pub set_link : PodcastSource → String → PodcastSource × List Effect
set_link s url = (record s { link = url }, data_changed ∷ [])

unfoldable pub set_title : PodcastSource → String → PodcastSource × List Effect
set_title s text = (record s { title = text }, title_changed ∷ data_changed ∷ [])

-- `none` is std::invalid_argument.
unfoldable pub set_max_episodes : PodcastSource → ℤ → Option PodcastSource
set_max_episodes s (pos (suc n)) = some (record s { max_episodes = suc n })
set_max_episodes s _ = none

-- The task takes over the interval of the source.
unfoldable pub set_update_task : PodcastSource → PodcastSource
set_update_task s = record s { updater = some s.update_interval }

unfoldable pub set_serializer : PodcastSource → PodcastSource
set_serializer s = record s { serializer = true }

unfoldable pub get_episodes_names : PodcastSource → List String
get_episodes_names s = map do_get_display_name s.episodes

unfoldable pub get_episode_count : PodcastSource → ℕ
get_episode_count s = length s.episodes

unfoldable pub purge_episodes : PodcastSource → PodcastSource × List Effect
purge_episodes s = (record s { episodes = [] }, episodes_count_changed 0 ∷ [])

unfoldable pub purge_icon_cache : PodcastSource → PodcastSource × List Effect
purge_icon_cache s =
    if str_eq s.image_file_path ""
    then (s, [])
    else (record s { image_file_path = "" }, remove_file s.image_file_path ∷ [])

unfoldable pub purge : PodcastSource → PodcastSource × List Effect
unfolding purge_episodes purge_icon_cache
purge s =
    let (s₁, first) = purge_episodes s in
    let (s₂, second) = purge_icon_cache s₁ in
    (s₂, first ++ second ++ (if s.serializer then delete_cached_info ∷ [] else []))

unfoldable pub episode_info_changed : PodcastSource → List Effect
episode_info_changed s = data_changed ∷ []
