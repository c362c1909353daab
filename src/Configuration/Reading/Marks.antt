-- ===== src/Configuration/Reading/Marks.antt =====
-- Reading a file makes a write due.
use digital_rooster_gui.Base.{◌≡◌, refl, true, false, some, Option-cases, inl, inr}
use digital_rooster_gui.Double.{Double}
use digital_rooster_gui.Json.{Json, Texts, Trees}
use digital_rooster_gui.Podcast.Icon.{Files}
use digital_rooster_gui.Podcast.Cache.{Dates}
use digital_rooster_gui.Weather.Stored.{from_json_object as weather_from_json}
use digital_rooster_gui.Configuration.{
  Configuration, set_standby_brightness, set_active_brightness, enable_backlight_control,
  set_sleep_timeout, set_volume,
}
use digital_rooster_gui.Configuration.Reading.{
  World, refresh_configuration, parse_json, read_values, read_radio_streams, read_podcasts,
  read_alarms, read_weather,
}

module _ {D Object Value : Type 0} (f : Double D) (json : Json Object Value)
    (trees : Trees D Object Value json) (texts : Texts) (dates : Dates) (world : World Object) where
  read_weather-dirty :
      (c : Configuration D) (o : Object)
      → (read_weather f json trees texts dates world c o).dirty ≡ c.dirty
  unfolding read_weather
  read_weather-dirty c o =
      elim (Option-cases (weather_from_json json (json.to_object (json.value o "Weather")))) [
        | inl e ↦ rw (read_weather, e) refl
        | inr (x, e) ↦ rw (read_weather, e) refl
      ]

  -- Reading a file marks a change.
  pub refresh-dirty :
      (files : Files) (c : Configuration D) (o : Object)
      → ((refresh_configuration f json trees texts dates world files c (some o)).1.dirty ≡ true)
        × ((refresh_configuration f json trees texts dates world files c (some o)).2 ≡ false)
  unfolding refresh_configuration parse_json read_podcasts read_radio_streams read_alarms
      read_values set_standby_brightness set_active_brightness enable_backlight_control
      set_sleep_timeout set_volume
  refresh-dirty files c o = (rw (read_weather-dirty _ o) refl, refl)
