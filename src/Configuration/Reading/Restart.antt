-- ===== src/Configuration/Reading/Restart.antt =====
-- The settings after a restart: what refresh_configuration makes of a file that
-- store_current_config wrote.
use digital_rooster_gui.Base.{◌≡◌, true, false, ◌++◌, map, some}
use digital_rooster_gui.Base.Int.{pos}
use digital_rooster_gui.Base.Sorting.{sort}
use digital_rooster_gui.Double.{Double, clamp_within}
use digital_rooster_gui.Json.{Json, Texts, Trees}
use digital_rooster_gui.Alarm.{default_alarm_timeout}
use digital_rooster_gui.Podcast.Icon.{Files}
use digital_rooster_gui.Podcast.Cache.{Dates}
use digital_rooster_gui.Weather.Stored.{weather_round_trip, to_json_object as weather_to_json}
use digital_rooster_gui.Configuration.{
  Configuration, Settings, set_standby_brightness, set_active_brightness, enable_backlight_control,
  set_sleep_timeout, set_volume,
}
use digital_rooster_gui.Configuration.Reading.{
  World, podcast_value, station_value, alarm_value, appconfig, by_name, read_radio_streams,
  by_title, read_podcasts, read_alarms, read_weather, read_values, parse_json, cleared,
  refresh_configuration, default_brightness, default_volume, default_sleep_timeout,
}
use digital_rooster_gui.Configuration.Reading.Storable.{
  restarted_alarm, restarted_station, restarted_podcast, IsStorable, restarted, found_lists,
  found_numbers,
}
use digital_rooster_gui.Configuration.Reading.Entries.{
  read_stations-written, read_alarms-written, read_sources-written,
}

module _ {D Object Value : Type 0} (f : Double D) (json : Json Object Value)
    (trees : Trees D Object Value json) (texts : Texts) (dates : Dates) (world : World Object) where
  module _ (s : Settings D) (storable : IsStorable texts f world s) where
    abbrev written : Object
    written = appconfig f json trees texts dates world s

    read_values-written :
        (c : Configuration D)
        → read_values f json trees texts dates world c written ≡ record c {
          settings = record c.settings {
            global_alarm_timeout = s.global_alarm_timeout;
            brightness_act = s.brightness_act;
            brightness_sb = s.brightness_sb;
            backlight_control_act = s.backlight_control_act;
            volume = s.volume;
            sleep_timeout = s.sleep_timeout;
            wpa_socket_name = s.wpa_socket_name;
            net_dev_name = s.net_dev_name;
          };
          dirty = true;
        }
    unfolding read_values set_active_brightness set_standby_brightness enable_backlight_control
        set_volume set_sleep_timeout
    read_values-written c =
        let (timeout, sleep, sb, act, volume, backlight, wpa, net) =
          found_numbers f json trees texts dates world s in
        rw (
          timeout,
          sleep,
          sb,
          act,
          volume,
          backlight,
          wpa,
          net,
          json.to_int-of_int s.global_alarm_timeout default_alarm_timeout storable.alarm_timeout,
          json.to_int-of_int s.sleep_timeout (pos default_sleep_timeout) storable.sleep_timeout,
          json.to_int-of_int s.brightness_sb (pos default_brightness) storable.standby,
          json.to_int-of_int s.brightness_act (pos default_brightness) storable.active,
          trees.to_double-of_double s.volume (f.ratio default_volume 1),
          json.to_bool-of_bool s.backlight_control_act true,
          json.to_string-of_string s.wpa_socket_name world.build.wpa_control_socket_path,
          json.to_string-of_string s.net_dev_name world.build.wifi_net_dev_name,
          storable.active_percent,
          storable.standby_percent,
          clamp_within f.less s.volume (f.ratio 0 1) (f.ratio 100 1) storable.not_below
              storable.not_above,
        )

    module _ (files : Files) (no_icon : files "" ≡ false) where
      stations-written :
          (c : Configuration D)
          → read_radio_streams f json trees texts dates world c written ≡ record c {
            settings = record c.settings {
              stream_sources =
                  sort
                    (by_name f json trees texts dates world)
                    (c.stream_sources ++ map restarted_station s.stream_sources);
            };
          }
      unfolding read_radio_streams
      stations-written c =
          let (podcasts, stations, alarms, weather) =
            found_lists f json trees texts dates world s in
          rw (
            stations,
            trees.to_array-of_array
                (map (station_value f json trees texts dates world) s.stream_sources),
            read_stations-written f json trees texts dates world s storable,
          )

      podcasts-written :
          (c : Configuration D)
          → read_podcasts f json trees texts dates world files c written ≡ (
            files,
            record c {
              settings = record c.settings {
                podcast_sources =
                    sort
                      (by_title f json trees texts dates world)
                      (c.podcast_sources ++ map (restarted_podcast dates) s.podcast_sources);
              };
            },
          )
      unfolding read_podcasts
      podcasts-written c =
          let (podcasts, stations, alarms, weather) =
            found_lists f json trees texts dates world s in
          rw (
            podcasts,
            trees.to_array-of_array
                (map (podcast_value f json trees texts dates world) s.podcast_sources),
            read_sources-written f json trees texts dates world s storable files no_icon 0
                s.podcast_sources storable.podcasts,
          )

      alarms-written :
          (c : Configuration D)
          → read_alarms f json trees texts dates world c written ≡ record c {
            settings = record c.settings { alarms = c.alarms ++ map restarted_alarm s.alarms };
          }
      unfolding read_alarms
      alarms-written c =
          let (podcasts, stations, alarms, weather) =
            found_lists f json trees texts dates world s in
          rw (
            alarms,
            trees.to_array-of_array (map (alarm_value f json trees texts dates world) s.alarms),
            read_alarms-written f json trees texts dates world s storable,
          )

      weather-written :
          (c : Configuration D)
          → read_weather f json trees texts dates world c written
            ≡ record c { settings = record c.settings { weather_cfg = s.weather_cfg } }
      unfolding read_weather
      weather-written c =
          let (podcasts, stations, alarms, weather) =
            found_lists f json trees texts dates world s in
          rw (
            weather,
            trees.to_object-of_object (weather_to_json json s.weather_cfg),
            weather_round_trip json s.weather_cfg storable.every,
            storable.location,
            storable.key,
            read_weather,
          )

      -- A start of the program with a file that store_current_config wrote of settings in their
      -- ranges, and no cache files, has these settings: alarms lose their seconds and timeouts,
      -- stations and podcasts are sorted and keep what their entries say. A write is due.
      pub refresh_configuration-restarted :
          (c : Configuration D)
          → refresh_configuration f json trees texts dates world files c (some written) ≡ (
            files,
            record c { settings = restarted f json trees texts dates world s; dirty = true },
            false,
          )
      unfolding refresh_configuration parse_json cleared restarted
      refresh_configuration-restarted c = rw (
        read_values-written (cleared f json trees texts dates world c),
        stations-written _,
        podcasts-written _,
        alarms-written _,
        weather-written _,
      )
