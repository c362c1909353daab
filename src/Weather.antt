-- ===== src/Weather.antt =====
-- include/weather.hpp and libsrc/weather.cpp. A reply of the service is the JSON object that
-- QJsonDocument::fromJson made of it, or `none` where that failed. `url` is the text of a QUrl.
pub mod Forecast
pub mod Stored
use digital_rooster_gui.Base.{
  ℕ, zero, suc, ◌-◌, ◌*◌, min, String, Bool, true, false, not, ◌||◌, List, [], ◌∷◌, ◌++◌, Option,
  none, some, length, get_elem?, str_eq, append, if◌then◌else◌,
}
use digital_rooster_gui.Base.Int.{ℤ, pos, negsuc}
use digital_rooster_gui.Double.{Double}
use digital_rooster_gui.Json.{Json, Trees}

pub record WeatherConfig : Type 0 where
  pub api_token : String
  pub location_id : String
  pub update_interval : ℤ

-- The timestamp is in seconds since the epoch.
pub record WeatherStatus (D : Type 0) : Type 0 where
  pub temperature : D
  pub temp_min : D
  pub temp_max : D
  pub icon_url : String
  pub timestamp : ℤ

-- The std::runtime_error of validate_json.
pub data Invalid : Type 0 where
  no_dt no_weather no_main no_temp no_temp_min no_temp_max : Invalid

-- Signals, and calls of the downloaders and of the timer, which takes milliseconds.
pub data Effect (D : Type 0) : Type 0 where
  weather_info_updated forecast_available : Effect D
  city_updated icon_changed : String → Effect D
  temperature_changed : D → Effect D
  download_weather download_forecast : String → Effect D
  start_timer : ℤ → Effect D

-- The timer's interval is in milliseconds; element 0 of the array is the current weather.
pub record Weather (D : Type 0) : Type 0 where
  pub update_interval : ℤ
  pub city_name : String
  pub timer_interval : ℤ
  pub weather : List (WeatherStatus D)

abbrev pub weather_forecast_count : ℕ
weather_forecast_count = 8

abbrev weather_icon_base_url : String
weather_icon_base_url = "https://openweathermap.org/img/w/"

abbrev weather_api_base_url : String
weather_api_base_url = "https://api.openweathermap.org/data/2.5/weather?"

abbrev weather_forecasts_api_base_url : String
weather_forecasts_api_base_url = "https://api.openweathermap.org/data/2.5/forecast?"

-- `number` is QString::number.
request : String → WeatherConfig → String
request base cfg = append base (
    append "id=" (
      append cfg.location_id
        (append "&units=metric" (append "&appid=" (append cfg.api_token "&lang=en")))))

unfoldable pub create_weather_url : (String → String) → WeatherConfig → String
unfolding request
create_weather_url url cfg = url (request weather_api_base_url cfg)

unfoldable pub create_forecast_url : (String → String) → (ℕ → String) → WeatherConfig → String
unfolding request
create_forecast_url url number cfg = url (
    append (request weather_forecasts_api_base_url cfg)
      (append "&cnt=" (number weather_forecast_count)))

-- A method that changes one element.
abbrev pub modify {ℓ} : {A : Type ℓ} → List A → ℕ → (A → A) → List A
modify [] i m = []
modify (x ∷ xs) zero m = m x ∷ xs
modify (x ∷ xs) (suc i) m = x ∷ modify xs i m

abbrev seconds_to_ms : ℤ → ℤ
seconds_to_ms (pos n) = pos (1000 * n)
seconds_to_ms (negsuc n) = negsuc (1000 * suc n - 1)

module _ {D Object Value : Type 0} (f : Double D) (json : Json Object Value)
    (trees : Trees D Object Value json) (url : String → String) where
  open json use {value, to_string, to_int, to_object}
  open trees use {is_undefined, is_double, is_string, to_array, to_double, undefined}

  is_empty_array : Value → Bool
  is_empty_array v = elim (to_array v) [ [] ↦ true | x ∷ xs ↦ false ]

  unfoldable pub validate_json : Object → Option Invalid
  unfolding is_empty_array
  validate_json o =
      let main = to_object (value o "main") in
      if is_undefined (value o "dt")
      then some no_dt
      else if is_undefined (value o "weather") || is_empty_array (value o "weather")
      then some no_weather
      else if is_undefined (value o "main")
      then some no_main
      else if not (is_double (value main "temp"))
      then some no_temp
      else if not (is_double (value main "temp_min"))
      then some no_temp_min
      else if not (is_double (value main "temp_max"))
      then some no_temp_max
      else none

  unfoldable pub parse_temperatures : WeatherStatus D → Object → WeatherStatus D
  parse_temperatures w o =
      let main = to_object (value o "main") in
      let read = λ (k : String). to_double (value main k) (f.ratio 0 1) in
      record w { temperature = read "temp"; temp_min = read "temp_min"; temp_max = read "temp_max" }

  -- QJsonArray::at
  unfoldable pub at : List Value → ℕ → Value
  at vs i = elim (get_elem? vs i) [ none ↦ undefined | some v ↦ v ]

  -- What update does with a valid object.
  unfoldable pub refreshed : WeatherStatus D → Object → WeatherStatus D
  unfolding at parse_temperatures
  refreshed w o =
      let icon = value (to_object (at (to_array (value o "weather")) 0)) "icon" in
      record (parse_temperatures w o) {
        icon_url = url (append weather_icon_base_url (append (to_string icon "") ".png"));
        timestamp = to_int (value o "dt") (pos 0);
      }

  unfoldable pub update : WeatherStatus D → Object → WeatherStatus D × Bool
  update w o = elim (validate_json o) [ some e ↦ (w, false) | none ↦ (refreshed w o, true) ]

  -- The three signals about element 0, as it is afterwards.
  update_current : Weather D → Object → Option (WeatherStatus D) → Weather D × List (Effect D)
  update_current w o none = (w, [])
  update_current w o (some s) =
      let (s', done) = update s o in
      if done
      then (
        record w { weather = modify w.weather 0 (λ _. s') },
        weather_info_updated ∷ temperature_changed s'.temperature ∷ icon_changed s'.icon_url ∷ [],
      )
      else (w, [])

  update_city : Weather D → Object → Weather D × List (Effect D)
  update_city w o =
      let name = to_string (value o "name") "" in
      if is_string (value o "name")
      then (record w { city_name = name }, city_updated name ∷ [])
      else (w, [])

  unfoldable pub parse_weather : Weather D → Option Object → Weather D × List (Effect D)
  unfolding update_current update_city
  parse_weather w none = (w, [])
  parse_weather w (some o) =
      let (w', first) = update_current w o (get_elem? w.weather 0) in
      let (w'', second) = update_city w' o in (w'', first ++ second)

  -- `weather[i].update(fc_array[i].toObject())`
  update_at : List (WeatherStatus D) → List Value → ℕ → List (WeatherStatus D)
  update_at ws vs i = modify ws i (λ s. (update s (to_object (at vs i))).0)

  -- The loop of parse_forecast from `i`, with the rounds that are left.
  forecast_loop : ℕ → ℕ → List Value → List (WeatherStatus D) → List (WeatherStatus D)
  forecast_loop zero i vs ws = ws
  forecast_loop (suc n) i vs ws = forecast_loop n (suc i) vs (update_at ws vs i)

  update_forecasts : Weather D → List Value → Weather D × List (Effect D)
  update_forecasts w [] = (w, [])
  update_forecasts w (v ∷ vs) =
      let max_idx = min (length (v ∷ vs)) (length w.weather) in
      (
        record w { weather = forecast_loop (max_idx - 1) 1 (v ∷ vs) w.weather },
        forecast_available ∷ [],
      )

  unfoldable pub parse_forecast : Weather D → Option Object → Weather D × List (Effect D)
  unfolding update_forecasts forecast_loop update_at at
  parse_forecast w none = (w, [])
  parse_forecast w (some o) = update_forecasts w (to_array (value o "list"))

module _ {D : Type 0} where
  -- A copy, or the null pointer; the index is converted to size_t.
  unfoldable pub get_weather : Weather D → ℤ → Option (WeatherStatus D)
  get_weather w (pos i) = get_elem? w.weather i
  get_weather w (negsuc i) = none

  unfoldable pub get_min_temperature : WeatherStatus D → D
  get_min_temperature s = s.temp_min

  unfoldable pub get_max_temperature : WeatherStatus D → D
  get_max_temperature s = s.temp_max

  unfoldable pub set_update_interval : Weather D → ℤ → Weather D × List (Effect D)
  set_update_interval w interval = (
    record w { update_interval = interval; timer_interval = seconds_to_ms interval },
    start_timer (seconds_to_ms interval) ∷ [],
  )

  module _ (url : String → String) (number : ℕ → String) where
    downloads : WeatherConfig → List (Effect D)
    downloads cfg =
        download_weather (create_weather_url url cfg)
        ∷ download_forecast (create_forecast_url url number cfg)
        ∷ []

    unfoldable pub refresh : Weather D → WeatherConfig → List (Effect D)
    unfolding downloads
    refresh w cfg = downloads cfg ++ start_timer w.timer_interval ∷ []

    replicate : ℕ → WeatherStatus D → List (WeatherStatus D)
    replicate zero s = []
    replicate (suc n) s = s ∷ replicate n s

    -- Weather::Weather; `blank` is a WeatherStatus of the default constructor.
    unfoldable pub init : WeatherStatus D → WeatherConfig → Weather D × List (Effect D)
    unfolding downloads replicate
    init blank cfg = (
      record {
        update_interval = pos 3600;
        city_name = "";
        timer_interval = seconds_to_ms (pos 3600);
        weather = replicate (suc weather_forecast_count) blank;
      },
      start_timer (seconds_to_ms (pos 3600)) ∷ downloads cfg,
    )
