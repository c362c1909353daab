-- ===== src/Podcast/Cache/RoundTrip.antt =====
-- A podcast source that is written to its cache file and restored from it.
use digital_rooster_gui.Base.{ℕ, ◌≡◌, false, map, some, str_eq}
use digital_rooster_gui.Json.{Json, Texts, Trees, json_laws}
use digital_rooster_gui.Podcast.{PodcastSource}
use digital_rooster_gui.Podcast.Icon.{Files}
use digital_rooster_gui.Podcast.Stored.{to_json_object}
use digital_rooster_gui.Podcast.Unique.{Unique}
use digital_rooster_gui.Podcast.Cache.{Dates, written_episode, store_to_file}

module _ (dates : Dates) where
  module _ {D Object Value : Type 0} (json : Json Object Value) (trees : Trees D Object Value json)
      (texts : Texts) where
    -- What a reader finds in the cache file.
    found :
        (now : ℕ) (s : PodcastSource)
        → (json.is_empty (store_to_file json trees texts dates now s) ≡ false)
          × (json.value (store_to_file json trees texts dates now s) "timestamp"
              ≡ json.of_string (dates.to_iso now))
          × (json.value (store_to_file json trees texts dates now s) "title"
              ≡ json.of_string s.title)
          × (json.value (store_to_file json trees texts dates now s) "description"
              ≡ json.of_string s.description)
          × (json.value (store_to_file json trees texts dates now s) "icon"
              ≡ json.of_string s.icon_url)
          × (json.value (store_to_file json trees texts dates now s) "icon-cached"
              ≡ json.of_string s.image_file_path)
          × (json.value (store_to_file json trees texts dates now s) "Episodes"
              ≡ trees.of_array (map (written_episode json trees texts dates) s.episodes))
    unfolding store_to_file to_json_object
    found now s = (
      simp json_laws,
      simp json_laws,
      simp json_laws,
      simp json_laws,
      simp json_laws,
      simp json_laws,
      simp json_laws,
    )

    module _ (files : Files) (now : ℕ) (s p : PodcastSource)
        (stamped : dates.from_iso (dates.to_iso now) ≡ some now)
        (not_empty : str_eq (dates.to_iso now) "" ≡ false)
        (never : dates.is_valid p.last_updated ≡ false)
        (no_image : files p.image_file_path ≡ false) where
      -- The source with what the file says of it, but its episodes.
      abbrev pub described : PodcastSource
      described = record p {
        title = s.title;
        description = s.description;
        icon_url = s.icon_url;
        image_file_path = s.image_file_path;
      }
