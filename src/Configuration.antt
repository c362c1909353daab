-- ===== src/Configuration.antt =====
-- include/configuration.hpp and libsrc/configuration.cpp: the settings in memory, and the flag that
-- asks for the next write. A method returns the new
-- configuration and the signals that it emits; `none` is std::out_of_range, and leaves it as it was.
pub mod Stores
pub mod Maps
pub mod Saving
pub mod Reading
pub mod Creating
pub mod Watching
use digital_rooster_gui.Base.{
  ℕ, zero, suc, ◌+◌, String, Bool, true, false, not, ◌||◌, List, [], ◌∷◌, ◌++◌, Option, none, some,
  length, get_elem?, ◌==◌, if◌then◌else◌,
}
use digital_rooster_gui.Base.Int.{ℤ, pos}
use digital_rooster_gui.Double.{Double, clamp}
use digital_rooster_gui.Alarm
use digital_rooster_gui.Alarm.{Alarm}
use digital_rooster_gui.Playable.{PlayableItem}
use digital_rooster_gui.Podcast.{PodcastSource}
use digital_rooster_gui.Brightness.{percent}
use digital_rooster_gui.Weather.{WeatherConfig}

pub data Signal : Type 0 where
  alarms_changed stations_changed podcast_sources_changed : Signal

-- What store_current_config writes.
pub record Settings (D : Type 0) : Type 0 where
  pub alarms : List Alarm
  pub stream_sources : List PlayableItem
  pub podcast_sources : List PodcastSource
  pub global_alarm_timeout : ℤ
  pub sleep_timeout : ℤ
  pub volume : D
  pub brightness_sb : ℤ
  pub brightness_act : ℤ
  pub backlight_control_act : Bool
  pub weather_cfg : WeatherConfig
  pub wpa_socket_name : String
  pub net_dev_name : String

pub record Configuration (D : Type 0) : Type 0 where
  pub settings : Settings D
  pub open settings use *
  pub dirty : Bool

-- template find_by_id
unfoldable pub find_by_id {ℓ} : {T : Type ℓ} → (T → ℕ) → List T → ℕ → Option T
find_by_id get_id [] id = none
find_by_id get_id (x ∷ xs) id = if get_id x == id then some x else find_by_id get_id xs id

-- std::remove_if and erase
unfoldable pub remove_id {ℓ} : {T : Type ℓ} → (T → ℕ) → List T → ℕ → List T
remove_id get_id [] id = []
remove_id get_id (x ∷ xs) id =
    let rest = remove_id get_id xs id in if get_id x == id then rest else x ∷ rest

-- template delete_by_id: the end has not moved exactly if nothing was removed.
unfoldable pub delete_by_id {ℓ} : {T : Type ℓ} → (T → ℕ) → List T → ℕ → Option (List T)
delete_by_id get_id xs id =
    let rest = remove_id get_id xs id in if length rest == length xs then none else some rest

abbrev pub alarm_id : Alarm → ℕ
alarm_id a = a.id

abbrev pub station_id : PlayableItem → ℕ
station_id i = i.id

abbrev pub podcast_id : PodcastSource → ℕ
podcast_id s = s.id

-- Alarm::dataChanged is connected to alarm_data_changed.
has_data_changed : List Alarm.Signal → Bool
has_data_changed [] = false
has_data_changed (Alarm.Signal.data_changed ∷ ss) = true
has_data_changed (Alarm.Signal.enabled_changed b ∷ ss) = has_data_changed ss
has_data_changed (Alarm.Signal.time_changed t ∷ ss) = has_data_changed ss
has_data_changed (Alarm.Signal.media_url_changed u ∷ ss) = has_data_changed ss
has_data_changed (Alarm.Signal.period_changed p ∷ ss) = has_data_changed ss
has_data_changed (Alarm.Signal.period_string_changed p ∷ ss) = has_data_changed ss

replace : List Alarm → ℕ → Alarm → List Alarm
replace [] row b = []
replace (a ∷ as') zero b = b ∷ as'
replace (a ∷ as') (suc row) b = a ∷ replace as' row b

module _ {D : Type 0} where
  unfoldable pub data_changed : Configuration D → Configuration D
  data_changed c = record c { dirty = true }

  with_alarms : Configuration D → List Alarm → Configuration D
  with_alarms c as' = record c { settings = record c.settings { alarms = as' } }

  with_stations : Configuration D → List PlayableItem → Configuration D
  with_stations c is = record c { settings = record c.settings { stream_sources = is } }

  with_podcasts : Configuration D → List PodcastSource → Configuration D
  with_podcasts c ps = record c { settings = record c.settings { podcast_sources = ps } }

  unfoldable pub add_alarm : Configuration D → Alarm → Configuration D × List Signal
  unfolding data_changed with_alarms
  add_alarm c a = (data_changed (with_alarms c (c.alarms ++ a ∷ [])), alarms_changed ∷ [])

  after_deletion :
      {T : Type 0}
      → Option (List T)
      → (List T → Configuration D)
      → Signal
      → Option (Configuration D × List Signal)
  after_deletion none put s = none
  after_deletion (some rest) put s = some (data_changed (put rest), s ∷ [])

  -- find_by_id throws first, so delete_by_id finds the alarm.
  delete_found : Configuration D → ℕ → Option Alarm → Option (Configuration D × List Signal)
  delete_found c id none = none
  delete_found c id (some _) =
      after_deletion (delete_by_id alarm_id c.alarms id) (with_alarms c) alarms_changed

  unfoldable pub delete_alarm : Configuration D → ℕ → Option (Configuration D × List Signal)
  unfolding data_changed with_alarms after_deletion delete_found
  delete_alarm c id = delete_found c id (find_by_id alarm_id c.alarms id)

  unfoldable pub get_alarm : Configuration D → ℕ → Option Alarm
  get_alarm c id = find_by_id alarm_id c.alarms id

  unfoldable pub alarm_data_changed : Configuration D → Configuration D × List Signal
  unfolding data_changed
  alarm_data_changed c = (data_changed c, alarms_changed ∷ [])

  unfoldable pub add_radio_station : Configuration D → PlayableItem → Configuration D × List Signal
  unfolding data_changed with_stations
  add_radio_station c i =
      (data_changed (with_stations c (c.stream_sources ++ i ∷ [])), stations_changed ∷ [])

  unfoldable pub delete_radio_station : Configuration D → ℕ → Option (Configuration D × List Signal)
  unfolding data_changed with_stations after_deletion
  delete_radio_station c id =
      after_deletion (delete_by_id station_id c.stream_sources id) (with_stations c)
        stations_changed

  unfoldable pub get_station : Configuration D → ℕ → Option PlayableItem
  get_station c id = find_by_id station_id c.stream_sources id

  unfoldable pub add_podcast_source :
      Configuration D → PodcastSource → Configuration D × List Signal
  unfolding data_changed with_podcasts
  add_podcast_source c p =
      (data_changed (with_podcasts c (c.podcast_sources ++ p ∷ [])), podcast_sources_changed ∷ [])

  unfoldable pub delete_podcast_source :
      Configuration D → ℕ → Option (Configuration D × List Signal)
  unfolding data_changed with_podcasts after_deletion
  delete_podcast_source c id =
      after_deletion (delete_by_id podcast_id c.podcast_sources id) (with_podcasts c)
        podcast_sources_changed

  unfoldable pub get_podcast_source : Configuration D → ℕ → Option PodcastSource
  get_podcast_source c id = find_by_id podcast_id c.podcast_sources id

  unfoldable pub set_standby_brightness : Configuration D → ℤ → Configuration D
  set_standby_brightness c b = record c {
    settings = record c.settings { brightness_sb = percent b };
    dirty = true;
  }

  unfoldable pub set_active_brightness : Configuration D → ℤ → Configuration D
  set_active_brightness c b = record c {
    settings = record c.settings { brightness_act = percent b };
    dirty = true;
  }

  unfoldable pub enable_backlight_control : Configuration D → Bool → Configuration D
  enable_backlight_control c ena = record c {
    settings = record c.settings { backlight_control_act = ena };
  }

  unfoldable pub set_sleep_timeout : Configuration D → ℤ → Configuration D
  set_sleep_timeout c timeout = record c {
    settings = record c.settings { sleep_timeout = timeout };
    dirty = true;
  }

  unfoldable pub set_volume : Double D → Configuration D → D → Configuration D
  set_volume f c vol = record c {
    settings = record c.settings { volume = clamp f.less vol (f.ratio 0 1) (f.ratio 100 1) };
    dirty = true;
  }

  changed :
      Configuration D
      → ℕ
      → (Alarm → Alarm × List Alarm.Signal)
      → Option Alarm
      → Configuration D × List Signal
  changed c row f none = (c, [])
  changed c row f (some a) =
      let (b, signals) = f a in
      let c' = with_alarms c (replace c.alarms row b) in
      if has_data_changed signals then alarm_data_changed c' else (c', [])

  -- A method `f` of the alarm in that row of the vector, an object that the store shares with its
  -- clients; other alarms may have its id.
  unfoldable pub change_alarm :
      Configuration D → ℕ → (Alarm → Alarm × List Alarm.Signal) → Configuration D × List Signal
  unfolding changed alarm_data_changed has_data_changed with_alarms replace
  change_alarm c row f = changed c row f (get_elem? c.alarms row)
