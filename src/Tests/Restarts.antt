-- ===== src/Tests/Restarts.antt =====
-- A restart with the configuration file, the stores, and the requests for stations and podcasts.
use digital_rooster_gui.Base.{ℕ, ◌≡◌, refl, String, true, false, [], ◌∷◌, none, some, arith}
use digital_rooster_gui.Base.Int.{pos}
use digital_rooster_gui.Brightness.{percent}
use digital_rooster_gui.Double.{clamp}
use digital_rooster_gui.Playable.{PlayableItem}
use digital_rooster_gui.Playable.Stored.{new_item, item_to_json_object}
use digital_rooster_gui.Podcast.{PodcastSource}
use digital_rooster_gui.Podcast.Stored.{new_source, to_json_object, source_round_trip}
use digital_rooster_gui.Configuration.{Settings, find_by_id, get_podcast_source}
use digital_rooster_gui.Configuration.Maps.{
  IsMap, alarm_store, station_store, podcast_store, stores-IsMap,
}
use digital_rooster_gui.Configuration.Reading.{World, appconfig, refresh_configuration}
use digital_rooster_gui.Configuration.Reading.Storable.{IsStorable, restarted}
use digital_rooster_gui.Configuration.Reading.Restart.{refresh_configuration-restarted}
use digital_rooster_gui.Rest.Alarms.{ok_object, ok, bad_request_no_item_with_uuid}
use digital_rooster_gui.Rest.Items.{get_podcast, add_podcast, delete_podcast, podcast_life}
use digital_rooster_gui.Tests.Instances.{Object, pairs, nested, whole, tallies}
use digital_rooster_gui.Tests.Feeds.{dates, no_files}
use digital_rooster_gui.Tests.Settings.{stored, loaded}

abbrev pub radio : PlayableItem
radio = new_item "FM4" "http://fm4" 4

abbrev pub podcast : PodcastSource
podcast = new_source 0 "http://pod" 4

abbrev pub saved : Settings ℕ
saved = record stored { stream_sources = radio ∷ []; podcast_sources = podcast ∷ [] }

abbrev pub world : World Object
world = record {
  before = λ s t. false;
  fresh = λ i. "new";
  now = 0;
  cache = λ id. none;
  build = record {
    wpa_control_socket_path = "/run/wpa";
    wifi_net_dev_name = "wlan0";
    project_version = "1";
  };
}

pub saved-IsStorable : IsStorable tallies whole world saved
unfolding percent clamp
saved-IsStorable = record {
  alarms = (record { id = omega arith; day = omega arith; url = refl; volume = omega arith }, tt);
  stations = (record { id = omega arith; url = refl }, tt);
  podcasts = (
    record {
      id = omega arith;
      url = refl;
      limit = (99, refl);
      small = omega arith;
      interval = omega arith;
      uncached = refl;
    },
    tt,
  );
  alarm_timeout = omega arith;
  sleep_timeout = omega arith;
  active = omega arith;
  standby = omega arith;
  active_percent = refl;
  standby_percent = refl;
  not_below = refl;
  not_above = refl;
  every = omega arith;
  location = refl;
  key = refl;
}

refresh_configuration-restarted_example :
    refresh_configuration whole pairs nested tallies dates world no_files loaded
      (some (appconfig whole pairs nested tallies dates world saved))
    ≡ (
      no_files,
      record loaded {
        settings = restarted whole pairs nested tallies dates world saved;
        dirty = true;
      },
      false,
    )
refresh_configuration-restarted_example =
    refresh_configuration-restarted whole pairs nested tallies dates world saved saved-IsStorable
      no_files refl loaded

stores-IsMap_example :
    IsMap (alarm_store {D = ℕ}) × IsMap (station_store {D = ℕ}) × IsMap (podcast_store {D = ℕ})
stores-IsMap_example = stores-IsMap {D = ℕ}

-- The four characters that stand for the number 4.
abbrev four : String
four = "aaaa"

abbrev radio_object : Object
radio_object = item_to_json_object pairs tallies radio

abbrev podcast_object : Object
podcast_object =
    to_json_object dates.file_name dates.local_name dates.in_cache pairs tallies 0 podcast

podcast_life_example :
    let back : PodcastSource = record podcast {
      update_interval = pos 3600;
      updater = some (pos 3600);
    } in
    let r =
      add_podcast pairs tallies dates podcast_store
        (λ b. some podcast_object)
        no_files
        loaded
        "{}"
        "new" in
    let c₂ = (delete_podcast pairs tallies dates podcast_store r.1 four).0 in
    (r.0 ≡ no_files)
    × (get_podcast pairs tallies dates podcast_store r.1 four
        ≡ ok_object
            (to_json_object dates.file_name dates.local_name dates.in_cache pairs tallies 0 back))
    × ((delete_podcast pairs tallies dates podcast_store r.1 four).1 ≡ ok)
    × ((n : ℕ) → get_podcast_source c₂ n ≡ get_podcast_source loaded n)
    × (get_podcast pairs tallies dates podcast_store c₂ four ≡ bad_request_no_item_with_uuid)
    × (delete_podcast pairs tallies dates podcast_store c₂ four
        ≡ (c₂, bad_request_no_item_with_uuid))
unfolding podcast_store get_podcast_source find_by_id
podcast_life_example =
    podcast_life pairs tallies dates podcast_store (stores-IsMap {D = ℕ}).2
      (λ b. some podcast_object) no_files no_files loaded "{}" "new" four podcast_object
      (record podcast { update_interval = pos 3600; updater = some (pos 3600) }) refl
      (source_round_trip dates.file_name dates.local_name dates.in_cache pairs tallies 0 no_files
        podcast 99 "new" refl (omega arith) refl refl (omega arith) (omega arith))
      refl refl
