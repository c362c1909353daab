-- ===== src/Tests/Feeds.antt =====
-- The documents and replies that come over the network, and the cache file of a podcast.
use mathlib.Core.Option
use digital_rooster_gui.Base.{
  ℕ, All, Option, ◌≡◌, refl, ◌⊎◌, String, true, false, List, [], ◌∷◌, none, some, ltb, get_elem?,
  append,
}
use digital_rooster_gui.Base.Int.{pos}
use digital_rooster_gui.Podcast.{PodcastSource, Effect, set_last_updated, set_title, purge}
use digital_rooster_gui.Podcast.Icon.{Files}
use digital_rooster_gui.Podcast.Unique.{IsValid}
use digital_rooster_gui.Podcast.Cache.{idle, Dates, store_to_file}
use digital_rooster_gui.Podcast.Cache.Writes.{
  Cached, calls, timeout, has_data_changed, change_saved,
}
use digital_rooster_gui.Rss.{Formats, itunes, update_podcast}
use digital_rooster_gui.Rss.Tokens.{
  Token, characters, start_document, start_element, end_element, has_error, closes, is_end, name,
  is_start, namespace, starts, at_end,
}
use digital_rooster_gui.Rss.Feed.{
  Attributes, Field, other, passed, image, IsField, IsEntry, IsOutside, torn, IsTorn, is_field,
  is_entry, Entry, title, enclosure, guid, feed_title, item, opening, closing, feed_tokens,
  apply_feed,
}
use digital_rooster_gui.Rss.Valid.{update_podcast-IsValid}
use digital_rooster_gui.Rss.Documents.{update_podcast_feed, update_podcast_broken}
use digital_rooster_gui.Weather.{
  Weather, WeatherStatus, parse_forecast, update, at, forecast_available,
}
use digital_rooster_gui.Weather.Forecast.{
  forecast, IsReport, parse_forecast_elements, update_outcome,
}
use digital_rooster_gui.Tests.Objects.{Value, literal, number, object, array, members_of, items_of}
use digital_rooster_gui.Tests.Instances.{
  ltb-IsStrictWeakOrder, Object, pairs, nested, whole, tallies,
}
use digital_rooster_gui.Tests.Playing.{feed, feed-IsValid}

abbrev pub same : String → String
same s = s

abbrev pub no_files : Files
no_files q = false

abbrev pub formats : Formats
formats = record {
  url = same;
  date = λ s. 15;
  is_valid = λ d. true;
  no_date = 0;
  time = λ f s. some 90;
  integer = λ s. none;
  midnight_plus = λ z. 0;
  new_uuid = λ n. n;
  earlier = ltb;
  file_name = same;
  local_name = same;
  in_cache = same;
}

abbrev white : Token
white = characters " "

-- A channel like that of test/alternativlos.rss: a title, a language, which is of no interest, an icon
-- and one item, with white space between them.
abbrev fields : List Field
fields =
    other white
    ∷ title [] (characters "Two")
    ∷ other (end_element "" "title")
    ∷ other (start_element itunes "subtitle" [])
    ∷ other (end_element itunes "subtitle")
    ∷ enclosure (("type", "audio/ogg") ∷ ("url", "http://a/2") ∷ [])
    ∷ other (end_element "" "enclosure")
    ∷ guid [] (characters "2")
    ∷ other (end_element "" "guid")
    ∷ []

abbrev pub entries : List Entry
entries =
    passed white
    ∷ feed_title [] (characters "News")
    ∷ passed (end_element "" "title")
    ∷ passed (start_element "" "language" [])
    ∷ passed (characters "de")
    ∷ passed (end_element "" "language")
    ∷ image (("href", "http://a/logo.png") ∷ [])
    ∷ passed (end_element itunes "image")
    ∷ item [] fields
    ∷ passed white
    ∷ []

abbrev before : List Token
before = start_document ∷ start_element "" "rss" (("version", "2.0") ∷ []) ∷ white ∷ []

abbrev after : List Token
after = white ∷ end_element "" "rss" ∷ []

abbrev pub document : List Token
document = opening before [] (feed_tokens entries (closing after))

-- The same, but it breaks off in a second item.
abbrev unfinished : Option (Attributes × List Field)
unfinished = some ([], title [] (characters "Three") ∷ [])

abbrev pub broken_document : List Token
broken_document = opening before [] (feed_tokens entries (torn unfinished []))

before-IsOutside : All IsOutside before
unfolding starts is_start name at_end
before-IsOutside = ((refl, refl), ((refl, refl), ((refl, refl), tt)))

after-IsOutside : All IsOutside after
unfolding starts is_start name at_end
after-IsOutside = ((refl, refl), ((refl, refl), tt))

fields-IsField : All IsField fields
unfolding has_error closes is_end name is_field is_start namespace
fields-IsField = (
  (refl, refl, refl),
  (
    refl,
    (
      (refl, refl, refl),
      (
        (refl, refl, refl),
        ((refl, refl, refl), (tt, ((refl, refl, refl), (refl, ((refl, refl, refl), tt))))),
      ),
    ),
  ),
)

entries-IsEntry : All IsEntry entries
unfolding has_error closes is_end name is_entry is_start namespace
entries-IsEntry = (
  (refl, refl, refl),
  (
    refl,
    (
      (refl, refl, refl),
      (
        (refl, refl, refl),
        (
          (refl, refl, refl),
          (
            (refl, refl, refl),
            (tt, ((refl, refl, refl), (fields-IsField, ((refl, refl, refl), tt)))),
          ),
        ),
      ),
    ),
  ),
)

update_podcast_feed_example :
    update_podcast formats no_files 99 feed document
    ≡ some (
      set_last_updated (apply_feed formats no_files entries (closing after) (feed, [])).0 99,
      (apply_feed formats no_files entries (closing after) (feed, [])).1,
    )
update_podcast_feed_example =
    update_podcast_feed formats no_files 99 feed before after [] entries before-IsOutside
      after-IsOutside entries-IsEntry

unfinished-IsTorn : IsTorn unfinished
unfolding has_error
unfinished-IsTorn = (refl, tt)

update_podcast_broken_example :
    update_podcast formats no_files 99 feed broken_document
    ≡ some (apply_feed formats no_files entries (torn unfinished []) (feed, []))
update_podcast_broken_example =
    update_podcast_broken formats no_files 99 feed before [] entries unfinished [] before-IsOutside
      entries-IsEntry unfinished-IsTorn

update_podcast-IsValid_example :
    (u : PodcastSource × List Effect) × (update_podcast formats no_files 99 feed document ≡ some u)
    × IsValid ltb u.0
    × (u.0.id ≡ 7)
    × (u.0.rss_feed_uri ≡ feed.rss_feed_uri)
    × (u.0.max_episodes ≡ feed.max_episodes)
    × (u.0.update_interval ≡ feed.update_interval)
    × ((u.0.last_updated ≡ feed.last_updated) ⊎ (u.0.last_updated ≡ 99))
update_podcast-IsValid_example =
    update_podcast-IsValid formats ltb-IsStrictWeakOrder no_files 99 feed document feed-IsValid

-- What the service reports of a time: 12 to 18 degrees.
abbrev main_part : Object
main_part =
    ("temp", number (pos 15)) ∷ ("temp_min", number (pos 12)) ∷ ("temp_max", number (pos 18)) ∷ []

abbrev report : Object
report =
    ("dt", number (pos 7))
    ∷ ("weather", array (items_of (object (members_of (("icon", literal "10d") ∷ [])) ∷ [])))
    ∷ ("main", object (members_of main_part))
    ∷ []

abbrev unknown : WeatherStatus ℕ
unknown = record { temperature = 0; temp_min = 0; temp_max = 0; icon_url = ""; timestamp = pos 0 }

abbrev station : Weather ℕ
station = record {
  update_interval = pos 3600;
  city_name = "";
  timer_interval = pos 3600000;
  weather = unknown ∷ unknown ∷ unknown ∷ [];
}

abbrev entry : Value
entry = object (members_of report)

abbrev reply : Object
reply = ("list", array (items_of (entry ∷ entry ∷ []))) ∷ []

parse_forecast_elements_example :
    (get_elem? (parse_forecast whole pairs nested same station (some reply)).0.weather 1
      ≡ Option.map
          (forecast whole pairs nested same (entry ∷ entry ∷ []) 1)
          (get_elem? station.weather 1))
    × ((parse_forecast whole pairs nested same station (some reply)).1 ≡ forecast_available ∷ [])
parse_forecast_elements_example =
    parse_forecast_elements whole pairs nested same station reply entry (entry ∷ []) 1 refl

update_outcome_example :
    ((IsReport whole pairs nested same report → ⊥)
      × (update whole pairs nested same unknown report ≡ (unknown, false)))
    ⊎ (IsReport whole pairs nested same report
        × (update whole pairs nested same unknown report ≡ (
          record {
            temperature = 15;
            temp_min = 12;
            temp_max = 18;
            icon_url = append "https://openweathermap.org/img/w/" (append "10d" ".png");
            timestamp = pos 7;
          },
          true,
        )))
unfolding at
update_outcome_example = update_outcome whole pairs nested same unknown report

abbrev pub dates : Dates
dates = record {
  from_iso = λ s. some 99;
  to_iso = λ d. "now";
  from_text = λ s. some 10;
  to_text = λ d. "day ten";
  is_valid = ltb 0;
  invalid_date = 0;
  earlier = ltb;
  file_name = same;
  local_name = same;
  in_cache = same;
  new_uuid = λ i. i;
}

-- The source as it comes from its entry in the configuration.
abbrev empty_feed : PodcastSource
empty_feed = record feed { episodes = [] }

abbrev cached : Cached Object
cached = record { source = feed; writer = idle; file = none }

change_saved_example :
    let c' = calls pairs nested tallies dates ((λ s. set_title s "New") ∷ purge ∷ []) cached in
    ((timeout pairs nested tallies dates 99 c').file
      ≡ some (store_to_file pairs nested tallies dates 99 c'.source))
    × ((timeout pairs nested tallies dates 99 c').writer ≡ idle)
    × ((timeout pairs nested tallies dates 99 c').source ≡ c'.source)
unfolding set_title has_data_changed
change_saved_example =
    change_saved pairs nested tallies dates (λ s. set_title s "New") (purge ∷ []) 99 cached refl
