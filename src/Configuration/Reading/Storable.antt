-- ===== src/Configuration/Reading/Storable.antt =====
-- What may be stored in the configuration file, what a restart makes of it, and what its readers find.
use digital_rooster_gui.Base.{
  ℕ, suc, ◌-◌, ◌%◌, ◌<◌, ◌^◌, ◌≡◌, ◌≢◌, refl, ap, true, false, List, [], ◌∷◌, map, Option, none,
  some, All, str_eq,
}
use digital_rooster_gui.Base.Int.{InInt32}
use digital_rooster_gui.Base.Sorting.{sort}
use digital_rooster_gui.Brightness.{percent}
use digital_rooster_gui.Double.{Double}
use digital_rooster_gui.Json.{Json, Texts, Trees, json_laws}
use digital_rooster_gui.Alarm.{Alarm, default_alarm_timeout}
use digital_rooster_gui.Playable.{PlayableItem}
use digital_rooster_gui.Playable.Stored.{new_item}
use digital_rooster_gui.Podcast.{PodcastSource}
use digital_rooster_gui.Podcast.Stored.{new_source}
use digital_rooster_gui.Podcast.Cache.{Dates}
use digital_rooster_gui.Weather.Stored.{to_json_object as weather_to_json}
use digital_rooster_gui.Configuration.{Settings}
use digital_rooster_gui.Configuration.Reading.{
  World, read_each, podcast_value, station_value, alarm_value, appconfig, by_name, by_title,
}

pub read_each-map :
    {A B C : Type 0} (read : ℕ → B → Option C) (write : A → B) (back : A → C) (i : ℕ) (xs : List A)
    → All (λ x. (j : ℕ) → read j (write x) ≡ some (back x)) xs
    → read_each read i (map write xs) ≡ map back xs
read_each-map read write back i [] h = refl
read_each-map read write back i (x ∷ xs) h =
    rw (h.0 i) (ap (λ l. back x ∷ l) (read_each-map read write back (suc i) xs h.1))

-- What comes back of an alarm and of a station.
abbrev pub restarted_alarm : Alarm → Alarm
restarted_alarm a = record a {
  alarm_time = a.alarm_time - a.alarm_time % 60000;
  timeout = default_alarm_timeout;
}

abbrev pub restarted_station : PlayableItem → PlayableItem
restarted_station i = new_item i.display_name i.media_url i.id

-- What comes back of a podcast source that has no cache file.
abbrev pub restarted_podcast : Dates → PodcastSource → PodcastSource
restarted_podcast dates p = record (new_source dates.invalid_date p.rss_feed_uri p.id) {
  title = p.title;
  max_episodes = p.max_episodes;
  update_interval = p.update_interval;
  updater = some p.update_interval;
  serializer = true;
}

module _ (texts : Texts) where
  pub record IsStorableAlarm (a : Alarm) : Type 0 where
    pub id : a.id ≢ 0
    pub day : a.alarm_time < 86400000
    pub url : texts.url_from_encoded a.media_url ≡ some a.media_url
    pub volume : InInt32 a.volume

  pub record IsStorableStation (i : PlayableItem) : Type 0 where
    pub id : i.id ≢ 0
    pub url : texts.url_from_encoded i.media_url ≡ some i.media_url

  pub record IsStorablePodcast {Object : Type 0} (world : World Object) (p : PodcastSource)
      : Type 0 where
    pub id : p.id ≢ 0
    pub url : texts.url_from_encoded p.rss_feed_uri ≡ some p.rss_feed_uri
    pub limit : (n : ℕ) × (p.max_episodes ≡ suc n)
    pub small : p.max_episodes < 2 ^ 31
    pub interval : InInt32 p.update_interval
    pub uncached : world.cache p.id ≡ none

  pub record IsStorable {D Object : Type 0} (f : Double D) (world : World Object) (s : Settings D)
      : Type 0 where
    pub alarms : All IsStorableAlarm s.alarms
    pub stations : All IsStorableStation s.stream_sources
    pub podcasts : All (IsStorablePodcast world) s.podcast_sources
    pub alarm_timeout : InInt32 s.global_alarm_timeout
    pub sleep_timeout : InInt32 s.sleep_timeout
    pub active : InInt32 s.brightness_act
    pub standby : InInt32 s.brightness_sb
    pub active_percent : percent s.brightness_act ≡ s.brightness_act
    pub standby_percent : percent s.brightness_sb ≡ s.brightness_sb
    pub not_below : f.less s.volume (f.ratio 0 1) ≡ false
    pub not_above : f.less (f.ratio 100 1) s.volume ≡ false
    pub every : InInt32 s.weather_cfg.update_interval
    pub location : str_eq s.weather_cfg.location_id "" ≡ false
    pub key : str_eq s.weather_cfg.api_token "" ≡ false

module _ {D Object Value : Type 0} (f : Double D) (json : Json Object Value)
    (trees : Trees D Object Value json) (texts : Texts) (dates : Dates) (world : World Object) where
  -- The settings after a restart.
  unfoldable pub restarted : Settings D → Settings D
  restarted s = record s {
    alarms = map restarted_alarm s.alarms;
    stream_sources =
        sort (by_name f json trees texts dates world) (map restarted_station s.stream_sources);
    podcast_sources =
        sort (by_title f json trees texts dates world)
          (map (restarted_podcast dates) s.podcast_sources);
  }

  pub found_lists :
      (s : Settings D)
      → (json.value (appconfig f json trees texts dates world s) "Podcasts"
          ≡ trees.of_array (map (podcast_value f json trees texts dates world) s.podcast_sources))
        × (json.value (appconfig f json trees texts dates world s) "InternetRadio"
            ≡ trees.of_array (map (station_value f json trees texts dates world) s.stream_sources))
        × (json.value (appconfig f json trees texts dates world s) "Alarms"
            ≡ trees.of_array (map (alarm_value f json trees texts dates world) s.alarms))
        × (json.value (appconfig f json trees texts dates world s) "Weather"
            ≡ trees.of_object (weather_to_json json s.weather_cfg))
  unfolding appconfig
  found_lists s = (simp json_laws, simp json_laws, simp json_laws, simp json_laws)

  pub found_numbers :
      (s : Settings D)
      → (json.value (appconfig f json trees texts dates world s) "alarmTimeout"
          ≡ json.of_int s.global_alarm_timeout)
        × (json.value (appconfig f json trees texts dates world s) "sleepTimeout"
            ≡ json.of_int s.sleep_timeout)
        × (json.value (appconfig f json trees texts dates world s) "brightnessStandby"
            ≡ json.of_int s.brightness_sb)
        × (json.value (appconfig f json trees texts dates world s) "brightnessActive"
            ≡ json.of_int s.brightness_act)
        × (json.value (appconfig f json trees texts dates world s) "volume"
            ≡ trees.of_double s.volume)
        × (json.value (appconfig f json trees texts dates world s) "autoBacklight"
            ≡ json.of_bool s.backlight_control_act)
        × (json.value (appconfig f json trees texts dates world s) "wpa_ctrl"
            ≡ json.of_string s.wpa_socket_name)
        × (json.value (appconfig f json trees texts dates world s) "net_dev"
            ≡ json.of_string s.net_dev_name)
  unfolding appconfig
  found_numbers s = (
    simp json_laws,
    simp json_laws,
    simp json_laws,
    simp json_laws,
    simp json_laws,
    simp json_laws,
    simp json_laws,
    simp json_laws,
  )
