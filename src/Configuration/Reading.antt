-- ===== src/Configuration/Reading.antt =====
-- The configuration file: store_current_config, parse_json and refresh_configuration of
-- libsrc/configuration.cpp. The file is the JSON object of its text, which Qt's QJsonDocument writes
-- and reads, or `none` where it cannot be opened.
pub mod Storable
mod Entries
pub mod Restart
pub mod Marks
use digital_rooster_gui.Base.{
  ℕ, suc, String, Bool, true, false, List, [], ◌∷◌, ◌++◌, map, Option, none, some, if◌then◌else◌,
}
use digital_rooster_gui.Base.Int.{ℤ, pos}
use digital_rooster_gui.Base.Sorting.{sort}
use digital_rooster_gui.Double.{Double}
use digital_rooster_gui.Json.{Json, Texts, Trees}
use digital_rooster_gui.Alarm.{
  Alarm, default_alarm_timeout, to_json_object as alarm_to_json,
  from_json_object as alarm_from_json,
}
use digital_rooster_gui.Playable.{PlayableItem, do_get_display_name}
use digital_rooster_gui.Playable.Stored.{item_from_json_object, item_to_json_object}
use digital_rooster_gui.Podcast.{PodcastSource, set_serializer, set_update_task}
use digital_rooster_gui.Podcast.Icon.{Files}
use digital_rooster_gui.Podcast.Stored.{
  to_json_object as podcast_to_json, from_json_object as podcast_from_json,
}
use digital_rooster_gui.Podcast.Cache.{Dates, restore_info}
use digital_rooster_gui.Weather.{WeatherConfig}
use digital_rooster_gui.Weather.Stored.{
  to_json_object as weather_to_json, from_json_object as weather_from_json,
}
use digital_rooster_gui.Configuration.{
  Configuration, Settings, Signal, set_standby_brightness, set_active_brightness,
  enable_backlight_control, set_sleep_timeout, set_volume,
}

-- What the build defines.
pub record Build : Type 0 where
  pub wpa_control_socket_path : String
  pub wifi_net_dev_name : String
  pub project_version : String

abbrev pub default_sleep_timeout : ℕ
default_sleep_timeout = 60

abbrev pub default_volume : ℕ
default_volume = 25

abbrev pub default_brightness : ℕ
default_brightness = 25

-- The surroundings of a program start: the order of QString, the texts of the UUIDs that are made
-- for the entries without one, by their number, the time, the cache files by id, and the build.
pub record World (Object : Type 0) : Type 0 where
  pub before : String → String → Bool
  pub fresh : ℕ → String
  pub now : ℕ
  pub cache : ℕ → Option Object
  pub build : Build

-- A loop over an array that leaves out what cannot be read.
abbrev pub read_each : {A B : Type 0} → (ℕ → A → Option B) → ℕ → List A → List B
read_each read i [] = []
read_each read i (x ∷ xs) =
    let rest = read_each read (suc i) xs in elim (read i x) [ none ↦ rest | some y ↦ y ∷ rest ]

module _ {D Object Value : Type 0} (f : Double D) (json : Json Object Value)
    (trees : Trees D Object Value json) (texts : Texts) (dates : Dates) (world : World Object) where
  open json use {
    value, insert, empty, of_string, of_bool, of_int, to_string, to_bool, to_int, to_object,
  }
  open trees use {of_object, of_array, of_double, to_array, to_double}
  open dates use {file_name, local_name, in_cache, invalid_date}

  pub podcast_value : PodcastSource → Value
  podcast_value p =
      of_object (podcast_to_json file_name local_name in_cache json texts invalid_date p)

  pub station_value : PlayableItem → Value
  station_value i = of_object (item_to_json_object json texts i)

  pub alarm_value : Alarm → Value
  alarm_value a = of_object (alarm_to_json json texts a)

  -- The object that store_current_config writes.
  unfoldable pub appconfig : Settings D → Object
  unfolding podcast_value station_value alarm_value
  appconfig s =
      let o₁ = insert empty "Podcasts" (of_array (map podcast_value s.podcast_sources)) in
      let o₂ = insert o₁ "InternetRadio" (of_array (map station_value s.stream_sources)) in
      let o₃ = insert o₂ "Alarms" (of_array (map alarm_value s.alarms)) in
      let o₄ = insert o₃ "Weather" (of_object (weather_to_json json s.weather_cfg)) in
      let o₅ = insert o₄ "alarmTimeout" (of_int s.global_alarm_timeout) in
      let o₆ = insert o₅ "sleepTimeout" (of_int s.sleep_timeout) in
      let o₇ = insert o₆ "wpa_ctrl" (of_string s.wpa_socket_name) in
      let o₈ = insert o₇ "net_dev" (of_string s.net_dev_name) in
      let o₉ = insert o₈ "volume" (of_double s.volume) in
      let p₁ = insert o₉ "brightnessStandby" (of_int s.brightness_sb) in
      let p₂ = insert p₁ "brightnessActive" (of_int s.brightness_act) in
      let p₃ = insert p₂ "autoBacklight" (of_bool s.backlight_control_act) in
      insert p₃ "version" (of_string world.build.project_version)

  pub read_station : ℕ → Value → Option PlayableItem
  read_station i v = item_from_json_object json texts (to_object v) (world.fresh i)

  pub by_name : PlayableItem → PlayableItem → Bool
  by_name lhs rhs = world.before lhs.display_name rhs.display_name

  -- std::sort may order stations of the same name in another way.
  pub read_radio_streams : Configuration D → Object → Configuration D
  unfolding read_station by_name
  read_radio_streams c o =
      let read = read_each read_station 0 (to_array (value o "InternetRadio")) in
      record c {
        settings = record c.settings { stream_sources = sort by_name (c.stream_sources ++ read) };
      }

  restored_podcast : Files × PodcastSource → Files × PodcastSource
  restored_podcast (files, p) =
      let (files', p', _) =
        restore_info json trees texts dates world.now files (world.cache p.id) p in
      (files', set_update_task (set_serializer p'))

  pub read_sources : ℕ → Files → List Value → Files × List PodcastSource
  read_sources i files [] = (files, [])
  read_sources i files (v ∷ vs) =
      let skipped = read_sources (suc i) files vs in
      elim (podcast_from_json file_name local_name in_cache json texts invalid_date files
        (to_object v) (world.fresh i)) [
          | none ↦ skipped
          | some r ↦
              (let (files', p) = restored_podcast r in
                let (files'', ps) = read_sources (suc i) files' vs in (files'', p ∷ ps))
        ]

  pub by_title : PodcastSource → PodcastSource → Bool
  by_title lhs rhs = world.before lhs.title rhs.title

  pub read_podcasts : Files → Configuration D → Object → Files × Configuration D
  unfolding read_sources restored_podcast by_title
  read_podcasts files c o =
      let (files', ps) = read_sources 0 files (to_array (value o "Podcasts")) in
      (
        files',
        record c {
          settings = record c.settings {
            podcast_sources = sort by_title (c.podcast_sources ++ ps);
          };
        },
      )

  pub read_alarm : ℕ → Value → Option Alarm
  read_alarm i v = alarm_from_json json texts (to_object v) (world.fresh i)

  pub read_alarms : Configuration D → Object → Configuration D
  unfolding read_alarm
  read_alarms c o =
      let read = read_each read_alarm 0 (to_array (value o "Alarms")) in
      record c { settings = record c.settings { alarms = c.alarms ++ read } }

  pub read_weather : Configuration D → Object → Configuration D
  read_weather c o = elim (weather_from_json json (to_object (value o "Weather"))) [
    | none ↦ c
    | some w ↦ record c { settings = record c.settings { weather_cfg = w } }
  ]

  -- The part of parse_json before the subsections.
  pub read_values : Configuration D → Object → Configuration D
  read_values c o =
      let c₀ : Configuration D = record c {
        settings = record c.settings {
          global_alarm_timeout = to_int (value o "alarmTimeout") default_alarm_timeout;
        };
      } in
      let c₁ =
        set_active_brightness c₀ (to_int (value o "brightnessActive") (pos default_brightness)) in
      let c₂ =
        set_standby_brightness c₁ (to_int (value o "brightnessStandby") (pos default_brightness)) in
      let c₃ = enable_backlight_control c₂ (to_bool (value o "autoBacklight") true) in
      let c₄ = set_volume f c₃ (to_double (value o "volume") (f.ratio default_volume 1)) in
      let c₅ = set_sleep_timeout c₄ (to_int (value o "sleepTimeout") (pos default_sleep_timeout)) in
      record c₅ {
        settings = record c₅.settings {
          wpa_socket_name = to_string (value o "wpa_ctrl") world.build.wpa_control_socket_path;
          net_dev_name = to_string (value o "net_dev") world.build.wifi_net_dev_name;
        };
      }

  unfoldable pub parse_json : Files → Configuration D → Object → Files × Configuration D
  parse_json files c o =
      let (files', c') = read_podcasts files (read_radio_streams (read_values c o) o) o in
      (files', read_weather (read_alarms c' o) o)

  cleared : Configuration D → Configuration D
  cleared c = record c {
    settings = record c.settings { alarms = []; podcast_sources = []; stream_sources = [] };
  }

  -- The flag is whether std::system_error is thrown, and not configuration_changed emitted.
  unfoldable pub refresh_configuration :
      Files → Configuration D → Option Object → Files × Configuration D × Bool
  unfolding cleared
  refresh_configuration files c none = (files, cleared c, true)
  refresh_configuration files c (some o) =
      let (files', c') = parse_json files (cleared c) o in (files', c', false)
