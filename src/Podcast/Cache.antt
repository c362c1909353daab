-- ===== src/Podcast/Cache.antt =====
-- The cache file of a podcast source in libsrc/podcast_serializer.cpp: a JSON object, or nothing
-- where the file cannot be opened. `none` of a reader is PodcastSourceJSonCorrupted.
pub mod Order
pub mod Episodes
pub mod RoundTrip
pub mod Writes
use digital_rooster_gui.Base.{
  ℕ, suc, String, Bool, true, false, not, ◌&&◌, List, [], ◌∷◌, ◌++◌, map, Option, none, some,
  str_eq, if◌then◌else◌,
}
use digital_rooster_gui.Json.{Json, Texts, Trees}
use digital_rooster_gui.Playable.{PodcastEpisode}
use digital_rooster_gui.Playable.Stored.{episode_from_json_object, episode_to_json_object}
use digital_rooster_gui.Podcast.{PodcastSource, Effect, set_title, set_description}
use digital_rooster_gui.Podcast.Icon.{Files, set_image_url, set_image_file_path}
use digital_rooster_gui.Podcast.Restore.{read_episodes_cache}
use digital_rooster_gui.Podcast.Stored.{to_json_object}

-- QDateTime's conversions, by Qt::ISODate and by the default format, its validity and its order;
-- the file names of icons, and the number of a new UUID, by the position of the episode.
pub record Dates : Type 0 where
  pub from_iso : String → Option ℕ
  pub to_iso : ℕ → String
  pub from_text : String → Option ℕ
  pub to_text : ℕ → String
  pub is_valid : ℕ → Bool
  pub invalid_date : ℕ
  pub earlier : ℕ → ℕ → Bool
  pub file_name : String → String
  pub local_name : String → String
  pub in_cache : String → String
  pub new_uuid : ℕ → ℕ

pub data Writer : Type 0 where
  idle waiting : Writer

-- PodcastSerializer::delayed_write: a timer that runs is not started again. When it ends, the
-- single shot timer is idle and write is called.
unfoldable pub delayed_write : Writer → Writer
delayed_write idle = waiting
delayed_write waiting = waiting

module _ {D Object Value : Type 0} (json : Json Object Value) (trees : Trees D Object Value json)
    (texts : Texts) (dates : Dates) where
  open json use {is_empty, value, insert, of_string, to_string, to_object}
  open trees use {of_object, of_array, to_array}
  open dates use {file_name, local_name, in_cache}

  unfoldable pub json_from_podcast_source : ℕ → PodcastSource → Object
  json_from_podcast_source now s =
      let o₁ = to_json_object file_name local_name in_cache json texts dates.invalid_date s in
      let o₂ = insert o₁ "timestamp" (of_string (dates.to_iso now)) in
      let o₃ = insert o₂ "description" (of_string s.description) in
      let o₄ = insert o₃ "icon" (of_string s.icon_url) in
      insert o₄ "icon-cached" (of_string s.image_file_path)

  written_episode : PodcastEpisode → Value
  written_episode e = of_object (episode_to_json_object json dates.from_text dates.to_text e)

  -- store_to_file, with the object that it writes.
  unfoldable pub store_to_file : ℕ → PodcastSource → Object
  unfolding json_from_podcast_source written_episode
  store_to_file now s =
      insert (json_from_podcast_source now s) "Episodes" (of_array (map written_episode s.episodes))

  -- The episodes of the array, each by PodcastEpisode::from_json_object.
  read_episodes : ℕ → ℕ → List Value → List PodcastEpisode
  read_episodes now i [] = []
  read_episodes now i (v ∷ vs) =
      episode_from_json_object json dates.from_text dates.to_text (to_object v) (dates.new_uuid i)
        now
      ∷ read_episodes now (suc i) vs

  -- The four setters of parse_podcast_source_from_json.
  take_over : Files → Object → PodcastSource → Files × PodcastSource × List Effect
  take_over files o s =
      let text = λ (k : String). to_string (value o k) "" in
      let (s₁, first) = set_title s (text "title") in
      let (s₂, second) = set_description s₁ (text "description") in
      let (files', s₃, third) = set_image_file_path files s₂ (text "icon-cached") in
      let (s₄, fourth) = set_image_url file_name local_name in_cache files' s₃ (text "icon") in
      (files', s₄, first ++ second ++ third ++ fourth)

  -- `ts_str` that is empty leaves the timestamp invalid.
  timestamp : String → Option ℕ
  timestamp ts_str = if str_eq ts_str "" then none else dates.from_iso ts_str

  unless_newer :
      Files → Object → PodcastSource → Option ℕ → Option (Files × PodcastSource × List Effect)
  unless_newer files o s none = none
  unless_newer files o s (some t) = some (
      if dates.is_valid s.last_updated && dates.earlier t s.last_updated
      then (files, s, [])
      else take_over files o s)

  unfoldable pub parse_podcast_source_from_json :
      Files → Object → PodcastSource → Option (Files × PodcastSource × List Effect)
  unfolding unless_newer timestamp take_over
  parse_podcast_source_from_json files o s =
      unless_newer files o s (timestamp (to_string (value o "timestamp") ""))

  with_episodes :
      ℕ
      → Object
      → Option (Files × PodcastSource × List Effect)
      → Option (Files × PodcastSource × List Effect)
  with_episodes now o none = none
  with_episodes now o (some (files, s, first)) =
      let (s', second) =
        read_episodes_cache dates.earlier s (read_episodes now 0 (to_array (value o "Episodes"))) in
      some (files, s', first ++ second)

  unfoldable pub read_from_file :
      ℕ → Files → Object → PodcastSource → Option (Files × PodcastSource × List Effect)
  unfolding with_episodes read_episodes
  read_from_file now files o s =
      if is_empty o then none else with_episodes now o (parse_podcast_source_from_json files o s)

  -- Both exceptions are caught.
  unfoldable pub restore_info :
      ℕ → Files → Option Object → PodcastSource → Files × PodcastSource × List Effect
  restore_info now files none s = (files, s, [])
  restore_info now files (some o) s = elim (read_from_file now files o s) [
    | none ↦ (files, s, [])
    | some r ↦ r
  ]
