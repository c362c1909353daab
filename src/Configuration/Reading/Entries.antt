-- ===== src/Configuration/Reading/Entries.antt =====
-- The entries of a written configuration file: what read_radio_streams, read_alarms and
-- read_podcasts make of each list that store_current_config wrote.
use digital_rooster_gui.Base.{
  ℕ, suc, ◌≡◌, refl, false, List, [], ◌∷◌, map, none, some, All, All-mono,
}
use digital_rooster_gui.Double.{Double}
use digital_rooster_gui.Json.{Json, Texts, Trees}
use digital_rooster_gui.Alarm.{to_json_object as alarm_to_json}
use digital_rooster_gui.Alarm.Storage.{alarm_round_trip}
use digital_rooster_gui.Playable.Stored.{item_to_json_object, item_round_trip}
use digital_rooster_gui.Podcast.{PodcastSource, set_serializer, set_update_task}
use digital_rooster_gui.Podcast.Icon.{Files}
use digital_rooster_gui.Podcast.Stored.{
  new_source, source_round_trip, to_json_object as podcast_to_json,
}
use digital_rooster_gui.Podcast.Cache.{Dates, restore_info}
use digital_rooster_gui.Configuration.{Settings}
use digital_rooster_gui.Configuration.Reading.{
  World, read_each, podcast_value, station_value, alarm_value, read_station, restored_podcast,
  read_sources, read_alarm,
}
use digital_rooster_gui.Configuration.Reading.Storable.{
  read_each-map, restarted_alarm, restarted_station, restarted_podcast, IsStorableAlarm,
  IsStorableStation, IsStorablePodcast, IsStorable,
}

module _ {D Object Value : Type 0} (f : Double D) (json : Json Object Value)
    (trees : Trees D Object Value json) (texts : Texts) (dates : Dates) (world : World Object) where
  module _ (s : Settings D) (storable : IsStorable texts f world s) where
    pub read_stations-written :
        read_each
          (read_station f json trees texts dates world)
          0
          (map (station_value f json trees texts dates world) s.stream_sources)
        ≡ map restarted_station s.stream_sources
    unfolding read_station station_value
    read_stations-written =
        read_each-map (read_station f json trees texts dates world)
          (station_value f json trees texts dates world) restarted_station 0 s.stream_sources
          (All-mono (IsStorableStation texts) _ s.stream_sources
            (λ i h j.
              rw (trees.to_object-of_object (item_to_json_object json texts i))
                (item_round_trip json texts i (world.fresh j) h.id h.url))
            storable.stations)

    pub read_alarms-written :
        read_each
          (read_alarm f json trees texts dates world)
          0
          (map (alarm_value f json trees texts dates world) s.alarms)
        ≡ map restarted_alarm s.alarms
    unfolding read_alarm alarm_value
    read_alarms-written =
        read_each-map (read_alarm f json trees texts dates world)
          (alarm_value f json trees texts dates world) restarted_alarm 0 s.alarms
          (All-mono (IsStorableAlarm texts) _ s.alarms
            (λ a h j.
              rw (trees.to_object-of_object (alarm_to_json json texts a))
                (alarm_round_trip json texts a (world.fresh j) h.id h.day h.url h.volume))
            storable.alarms)

    module _ (files : Files) (no_icon : files "" ≡ false) where
      restored_podcast-uncached :
          (p : PodcastSource)
          → world.cache p.id ≡ none
          → restored_podcast f json trees texts dates world (files, p)
            ≡ (files, set_update_task (set_serializer p))
      unfolding restored_podcast restore_info
      restored_podcast-uncached p h = rw h

      pub read_sources-written :
          (i : ℕ) (ps : List PodcastSource)
          → All (IsStorablePodcast texts world) ps
          → read_sources f json trees texts dates world i files
              (map (podcast_value f json trees texts dates world) ps)
            ≡ (files, map (restarted_podcast dates) ps)
      unfolding read_sources podcast_value set_serializer set_update_task
      read_sources-written i [] h = refl
      read_sources-written i (p ∷ ps) h =
          let back =
            source_round_trip dates.file_name dates.local_name dates.in_cache json texts
              dates.invalid_date files p h.0.limit.0 (world.fresh i) no_icon h.0.id h.0.url
              h.0.limit.1 h.0.small h.0.interval in
          let restored =
            restored_podcast-uncached
              (record (new_source dates.invalid_date p.rss_feed_uri p.id) {
                title = p.title;
                max_episodes = p.max_episodes;
                update_interval = p.update_interval;
                updater = some p.update_interval;
              })
              h.0.uncached in
          rw (
            trees.to_object-of_object (
                podcast_to_json dates.file_name dates.local_name dates.in_cache json texts
                  dates.invalid_date p),
            back,
            restored,
            read_sources-written (suc i) ps h.1,
            read_sources,
          )
