-- ===== src/Weather/Stored.antt =====
-- The weather settings in the configuration file: WeatherConfig of libsrc/weather.cpp.
use digital_rooster_gui.Base.{◌≡◌, false, ◌||◌, Option, none, some, arith, str_eq, if◌then◌else◌}
use digital_rooster_gui.Base.Int.{pos, InInt32}
use digital_rooster_gui.Json.{Json, json_laws}
use digital_rooster_gui.Weather.{WeatherConfig}

module _ {Object Value : Type 0} (json : Json Object Value) where
  open json use {is_empty, value, insert, empty, of_string, of_int, to_string, to_int}

  unfoldable pub to_json_object : WeatherConfig → Object
  to_json_object c =
      let o₁ = insert empty "updateInterval" (of_int c.update_interval) in
      let o₂ = insert o₁ "locationId" (of_string c.location_id) in
      insert o₂ "apiKey" (of_string c.api_token)

  -- `none` is std::invalid_argument.
  unfoldable pub from_json_object : Object → Option WeatherConfig
  from_json_object o =
      if is_empty o
      then none
      else if str_eq (to_string (value o "locationId") "") ""
      then none
      else if str_eq (to_string (value o "apiKey") "") ""
      then none
      else some (record {
        api_token = to_string (value o "apiKey") "";
        location_id = to_string (value o "locationId") "";
        update_interval = to_int (value o "updateInterval") (pos 3600);
      })

  written :
      (c : WeatherConfig)
      → (is_empty (to_json_object c) ≡ false)
        × (value (to_json_object c) "locationId" ≡ of_string c.location_id)
        × (value (to_json_object c) "apiKey" ≡ of_string c.api_token)
        × (value (to_json_object c) "updateInterval" ≡ of_int c.update_interval)
  unfolding to_json_object
  written c = (simp json_laws, simp json_laws, simp json_laws, simp json_laws)

  -- Weather settings with an interval that fits an int, written and read back, are the same, but are
  -- refused if the location or the API key is empty.
  pub weather_round_trip :
      (c : WeatherConfig)
      → InInt32 c.update_interval
      → from_json_object (to_json_object c)
        ≡ (if str_eq c.location_id "" || str_eq c.api_token "" then none else some c)
  unfolding from_json_object
  weather_round_trip c small =
      let (full, location, key, every) = written c in
      rw
        (
          full,
          location,
          key,
          every,
          json.to_string-of_string c.location_id "",
          json.to_string-of_string c.api_token "",
          json.to_int-of_int c.update_interval (pos 3600) small,
        )
        (ground arith)
