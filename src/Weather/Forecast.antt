-- ===== src/Weather/Forecast.antt =====
-- What a reply of the weather service changes.
use mathlib.Core.Option
use digital_rooster_gui.Base.{
  ℕ, zero, suc, ◌-◌, ◌≤◌, ◌≢◌, min, ◌+◌, ◌≡◌, refl, ◌⊎◌, ◌↔◌, inl, inr, String, true, false, ◌&&◌,
  List, [], ◌∷◌, none, some, arith, length, get_elem?, ltb, leb, ◌==◌, append, if◌then◌else◌,
  Option-cases,
}
use digital_rooster_gui.Base.Int.{pos}
use digital_rooster_gui.Double.{Double}
use digital_rooster_gui.Json.{Json, Trees}
use digital_rooster_gui.Weather.{
  Weather, WeatherStatus, forecast_available, modify, validate_json, refreshed, update, at,
  update_at, forecast_loop, parse_forecast,
}

get_elem?-modify {ℓ} :
    {A : Type ℓ} (xs : List A) (i j : ℕ) (m : A → A)
    → get_elem? (modify xs i m) j
      ≡ (if i == j then Option.map m (get_elem? xs j) else get_elem? xs j)
get_elem?-modify [] i j m = ground arith
get_elem?-modify (x ∷ xs) zero zero m = refl
get_elem?-modify (x ∷ xs) zero (suc j) m = ground arith
get_elem?-modify (x ∷ xs) (suc i) zero m = ground arith
get_elem?-modify (x ∷ xs) (suc i) (suc j) m = ground (arith, get_elem?-modify xs i j m)

get_elem?-past {ℓ} : {A : Type ℓ} (xs : List A) (j : ℕ) → length xs ≤ j → get_elem? xs j ≡ none
get_elem?-past [] j h = refl
get_elem?-past (x ∷ xs) zero h = absurd (omega arith)
get_elem?-past (x ∷ xs) (suc j) h = get_elem?-past xs j (omega arith)

module _ {D Object Value : Type 0} (f : Double D) (json : Json Object Value)
    (trees : Trees D Object Value json) (url : String → String) where
  -- Element `i` after the reply `vs`.
  abbrev pub forecast : List Value → ℕ → WeatherStatus D → WeatherStatus D
  forecast vs i s = (update f json trees url s (json.to_object (at f json trees url vs i))).0

  get_elem?-update_at :
      (ws : List (WeatherStatus D)) (vs : List Value) (i j : ℕ)
      → get_elem? (update_at f json trees url ws vs i) j
        ≡ (if i == j then Option.map (forecast vs j) (get_elem? ws j) else get_elem? ws j)
  unfolding update_at
  get_elem?-update_at ws vs i j = ground (arith, get_elem?-modify ws i j (forecast vs i))

  get_elem?-forecast_loop :
      (n i j : ℕ) (vs : List Value) (ws : List (WeatherStatus D))
      → get_elem? (forecast_loop f json trees url n i vs ws) j ≡ (
          if leb i j && ltb j (i + n)
          then Option.map (forecast vs j) (get_elem? ws j)
          else get_elem? ws j)
  unfolding forecast_loop
  get_elem?-forecast_loop zero i j vs ws = ground arith
  get_elem?-forecast_loop (suc n) i j vs ws = ground (
    arith,
    get_elem?-forecast_loop n (suc i) j vs (update_at f json trees url ws vs i),
    get_elem?-update_at ws vs i j,
  )

  -- A forecast with a list that is not empty changes the elements that have an entry in it, other
  -- than the first, each to what its own entry makes of it, and says so. The first entry of the list
  -- is not used, and element 0, the current weather, stays.
  pub parse_forecast_elements :
      (w : Weather D) (o : Object) (v : Value) (vs : List Value) (j : ℕ)
      → trees.to_array (json.value o "list") ≡ v ∷ vs
      → (get_elem? (parse_forecast f json trees url w (some o)).0.weather j ≡ (
          if leb 1 j && ltb j (length (v ∷ vs))
          then Option.map (forecast (v ∷ vs) j) (get_elem? w.weather j)
          else get_elem? w.weather j))
        × ((parse_forecast f json trees url w (some o)).1 ≡ forecast_available ∷ [])
  unfolding parse_forecast
  parse_forecast_elements w o v vs j h =
      let rounds = min (suc (length vs)) (length w.weather) - 1 in
      rw h (
        ground (
          arith,
          get_elem?-forecast_loop rounds 1 j (v ∷ vs) w.weather,
          get_elem?-past w.weather j,
        ),
        refl,
      )

  -- What a valid object says, field by field.
  pub record IsReport (o : Object) : Type 0 where
    pub dt : trees.is_undefined (json.value o "dt") ≡ false
    pub weather : trees.is_undefined (json.value o "weather") ≡ false
    pub some_weather : trees.to_array (json.value o "weather") ≢ []
    pub main : trees.is_undefined (json.value o "main") ≡ false
    pub temp : trees.is_double (json.value (json.to_object (json.value o "main")) "temp") ≡ true
    pub temp_min :
        trees.is_double (json.value (json.to_object (json.value o "main")) "temp_min") ≡ true
    pub temp_max :
        trees.is_double (json.value (json.to_object (json.value o "main")) "temp_max") ≡ true

  array-cases :
      (vs : List Value) → (vs ≡ []) ⊎ ((v : Value) × (rest : List Value) × (vs ≡ v ∷ rest))
  array-cases [] = inl refl
  array-cases (v ∷ rest) = inr (v, rest, refl)

  validate_json-IsReport : (o : Object) → (validate_json f json trees url o ≡ none) ↔ IsReport o
  unfolding validate_json
  validate_json-IsReport o = (
    λ h. record {
      dt = ground arith;
      weather = ground arith;
      some_weather = λ e. ground (arith, e);
      main = ground arith;
      temp = ground arith;
      temp_min = ground arith;
      temp_max = ground arith;
    },
    λ r. ground (arith, array-cases (trees.to_array (json.value o "weather"))),
  )

  -- A status takes over the three temperatures, the icon of the first weather and the time of an object
  -- that has a time and a weather that is not empty, and numbers for all three temperatures, and says
  -- so, where an icon that is no text counts as empty and a time that is no number as 0; otherwise it
  -- stays as it was.
  pub update_outcome :
      (s : WeatherStatus D) (o : Object)
      → ((IsReport o → ⊥) × (update f json trees url s o ≡ (s, false)))
        ⊎ (IsReport o
            × (let main = json.to_object (json.value o "main") in
                let icon =
                  json.value
                    (json.to_object
                      (at f json trees url (trees.to_array (json.value o "weather")) 0))
                    "icon" in
                update f json trees url s o ≡ (
                  record {
                    temperature = trees.to_double (json.value main "temp") (f.ratio 0 1);
                    temp_min = trees.to_double (json.value main "temp_min") (f.ratio 0 1);
                    temp_max = trees.to_double (json.value main "temp_max") (f.ratio 0 1);
                    icon_url = url (
                        append "https://openweathermap.org/img/w/"
                          (append (json.to_string icon "") ".png"));
                    timestamp = json.to_int (json.value o "dt") (pos 0);
                  },
                  true,
                )))
  unfolding update refreshed
  update_outcome s o = elim (Option-cases (validate_json f json trees url o)) [
    | inl ok ↦ inr (((validate_json-IsReport o).0) ok, rw (ok, update))
    | inr (e, bad) ↦ inl (λ r. cc (((validate_json-IsReport o).1) r, bad), rw (bad, update))
  ]
