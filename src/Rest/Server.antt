-- ===== src/Rest/Server.antt =====
-- The handlers that the constructors of REST/AlarmApi.cpp, REST/RadioApi.cpp and REST/PodcastApi.cpp
-- bind, with the default handler of REST/ApiHandler.cpp, over the stores of the configuration. Which
-- route a request takes is Pistache's, so a call names its handler, with what Pistache hands over.
pub mod Frame
use digital_rooster_gui.Base.{ℕ, String, List, [], ◌∷◌, map, Option, none, some}
use digital_rooster_gui.Json.{Json, Texts}
use digital_rooster_gui.Alarm
use digital_rooster_gui.Playable.Stored.{item_to_json_object}
use digital_rooster_gui.Podcast.Icon.{Files}
use digital_rooster_gui.Podcast.Cache.{Dates}
use digital_rooster_gui.Podcast.Stored.{to_json_object as podcast_to_json}
use digital_rooster_gui.Configuration.{Configuration}
use digital_rooster_gui.Configuration.Maps.{station_store, podcast_store}
use digital_rooster_gui.Rest.{Stoi, listed_items}
use digital_rooster_gui.Rest.Alarms
use digital_rooster_gui.Rest.Alarms.{Reply}
use digital_rooster_gui.Rest.Items

-- The parameters `offset` and `length`; the body with the text of a new UUID; the parameter `:uid`.
pub data Request : Type 0 where
  read_list : Option String → Option String → Request
  add : String → String → Request
  get_one delete_one : String → Request

pub data Call : Type 0 where
  alarms radios podcasts : Request → Call
  elsewhere : Call

-- `uncaught` is an exception that leaves the handler.
pub data Response (Object : Type 0) : Type 0 where
  reply : Reply Object → Response Object
  ok_array : List Object → Response Object
  not_found uncaught : Response Object

pub record Server (D : Type 0) : Type 0 where
  pub files : Files
  pub stores : Configuration D

-- respond_json_array
unfoldable pub respond_json_array :
    {A Object : Type 0}
    → (String → Stoi)
    → (A → Object)
    → List A
    → Option String
    → Option String
    → Response Object
respond_json_array stoi write all offset len = elim (listed_items stoi all offset len) [
  | none ↦ uncaught
  | some items ↦ ok_array (map write items)
]

module _ {D Object Value : Type 0} (json : Json Object Value) (texts : Texts) (dates : Dates)
    (stoi : String → Stoi) (parse : String → Option Object) where
  open dates use {file_name, local_name, in_cache, invalid_date}

  replied : Server D → Configuration D × Reply Object → Server D × Response Object
  replied s (c, r) = (record s { stores = c }, reply r)

  serve_alarms : Server D → Request → Server D × Response Object
  serve_alarms s (read_list offset len) =
      (s, respond_json_array stoi (Alarm.to_json_object json texts) s.stores.alarms offset len)
  serve_alarms s (add body fresh) =
      replied s (Alarms.add_alarm json texts parse s.stores body fresh)
  serve_alarms s (get_one uid) = (s, reply (Alarms.get_alarm json texts s.stores uid))
  serve_alarms s (delete_one uid) = replied s (Alarms.delete_alarm texts s.stores uid)

  serve_radios : Server D → Request → Server D × Response Object
  serve_radios s (read_list offset len) = (
    s,
    respond_json_array stoi (item_to_json_object json texts) s.stores.stream_sources offset len,
  )
  serve_radios s (add body fresh) =
      replied s (Items.add_station json texts station_store parse s.stores body fresh)
  serve_radios s (get_one uid) =
      (s, reply (Items.get_station json texts station_store s.stores uid))
  serve_radios s (delete_one uid) =
      replied s (Items.delete_station json texts station_store s.stores uid)

  serve_podcasts : Server D → Request → Server D × Response Object
  serve_podcasts s (read_list offset len) = (
    s,
    respond_json_array stoi (podcast_to_json file_name local_name in_cache json texts invalid_date)
        s.stores.podcast_sources offset len,
  )
  serve_podcasts s (add body fresh) =
      let (files, c, r) =
        Items.add_podcast json texts dates podcast_store parse s.files s.stores body fresh in
      (record { files = files; stores = c }, reply r)
  serve_podcasts s (get_one uid) =
      (s, reply (Items.get_podcast json texts dates podcast_store s.stores uid))
  serve_podcasts s (delete_one uid) =
      replied s (Items.delete_podcast json texts dates podcast_store s.stores uid)

  unfoldable pub serve : Server D → Call → Server D × Response Object
  unfolding serve_alarms serve_radios serve_podcasts replied
  serve s (alarms r) = serve_alarms s r
  serve s (radios r) = serve_radios s r
  serve s (podcasts r) = serve_podcasts s r
  serve s elsewhere = (s, not_found)
