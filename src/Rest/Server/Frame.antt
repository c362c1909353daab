-- ===== src/Rest/Server/Frame.antt =====
-- What a call cannot change.
use digital_rooster_gui.Base.{◌≡◌, refl, String, Option, Option-cases, inl, inr}
use digital_rooster_gui.Json.{Json, Texts}
use digital_rooster_gui.Playable.Stored.{item_from_json_object}
use digital_rooster_gui.Podcast.Icon.{Files}
use digital_rooster_gui.Podcast.Cache.{Dates}
use digital_rooster_gui.Podcast.Stored.{from_json_object as podcast_from_json}
use digital_rooster_gui.Configuration
use digital_rooster_gui.Configuration.{
  Configuration, Signal, find_by_id, delete_by_id, alarm_id, station_id, podcast_id,
}
use digital_rooster_gui.Configuration.Maps.{deletes, station_store, podcast_store}
use digital_rooster_gui.Rest.{Stoi}
use digital_rooster_gui.Rest.Alarms
use digital_rooster_gui.Rest.Alarms.{Reply, uid_of}
use digital_rooster_gui.Rest.Items
use digital_rooster_gui.Rest.Server.{
  read_list, add, get_one, delete_one, Call, alarms, radios, podcasts, elsewhere, Server, serve,
  replied, serve_alarms, serve_radios, serve_podcasts,
}

module _ {D : Type 0} where
  -- Only the alarms, or the stations, or the podcasts with the files, and the mark of a change.
  abbrev pub OnlyAlarms : Configuration D → Configuration D → Type 0
  OnlyAlarms c c' =
      c' ≡ record c { settings = record c.settings { alarms = c'.alarms }; dirty = c'.dirty }

  abbrev pub OnlyStations : Configuration D → Configuration D → Type 0
  OnlyStations c c' = c' ≡ record c {
    settings = record c.settings { stream_sources = c'.stream_sources };
    dirty = c'.dirty;
  }

  abbrev pub OnlyPodcasts : Configuration D → Configuration D → Type 0
  OnlyPodcasts c c' = c' ≡ record c {
    settings = record c.settings { podcast_sources = c'.podcast_sources };
    dirty = c'.dirty;
  }

  -- What a call keeps.
  abbrev pub Kept : Call → Server D → Server D → Type 0
  Kept (alarms (add body fresh)) s s' = OnlyAlarms s.stores s'.stores × (s'.files ≡ s.files)
  Kept (alarms (delete_one uid)) s s' = OnlyAlarms s.stores s'.stores × (s'.files ≡ s.files)
  Kept (radios (add body fresh)) s s' = OnlyStations s.stores s'.stores × (s'.files ≡ s.files)
  Kept (radios (delete_one uid)) s s' = OnlyStations s.stores s'.stores × (s'.files ≡ s.files)
  Kept (podcasts (add body fresh)) s s' = OnlyPodcasts s.stores s'.stores
  Kept (podcasts (delete_one uid)) s s' = OnlyPodcasts s.stores s'.stores × (s'.files ≡ s.files)
  Kept _ s s' = s' ≡ s

module _ {D Object Value : Type 0} (json : Json Object Value) (texts : Texts) (dates : Dates)
    (stoi : String → Stoi) (parse : String → Option Object) where
  delete_alarm-Only :
      (c : Configuration D) (uid : String)
      → OnlyAlarms c (Alarms.delete_alarm {Object = Object} texts c uid).0
  unfolding Alarms.delete_alarm
  delete_alarm-Only c uid = elim (Option-cases (find_by_id alarm_id c.alarms (uid_of texts uid))) [
    | inl e ↦ rw ((Alarms.missing json texts c uid e).1) refl
    | inr (x, e) ↦ rw (deletes c (uid_of texts uid) x e) refl
  ]

  delete_station-Only :
      (c : Configuration D) (uid : String)
      → OnlyStations c (Items.delete_station json texts station_store c uid).0
  unfolding Items.delete_station station_store Configuration.delete_radio_station
  delete_station-Only c uid =
      elim (Option-cases (delete_by_id station_id c.stream_sources (uid_of texts uid))) [
        | inl e ↦ rw e refl
        | inr (x, e) ↦ rw e refl
      ]

  delete_podcast-Only :
      (c : Configuration D) (uid : String)
      → OnlyPodcasts c (Items.delete_podcast json texts dates podcast_store c uid).0
  unfolding Items.delete_podcast podcast_store Configuration.delete_podcast_source
  delete_podcast-Only c uid =
      elim (Option-cases (delete_by_id podcast_id c.podcast_sources (uid_of texts uid))) [
        | inl e ↦ rw e refl
        | inr (x, e) ↦ rw e refl
      ]

  add_alarm-Only :
      (c : Configuration D) (body fresh : String)
      → OnlyAlarms c (Alarms.add_alarm json texts parse c body fresh).0
  unfolding Alarms.add_alarm Configuration.add_alarm
  add_alarm-Only c body fresh =
      elim (Option-cases (Alarms.read_body json texts (parse body) fresh)) [
        | inl e ↦ rw e refl
        | inr (x, e) ↦ rw e refl
      ]

  add_station-Only :
      (c : Configuration D) (body fresh : String)
      → OnlyStations c (Items.add_station json texts station_store parse c body fresh).0
  unfolding Items.add_station station_store Configuration.add_radio_station
  add_station-Only c body fresh =
      elim (Option-cases
        (Items.read_body (λ o. item_from_json_object json texts o fresh) (parse body))) [
          | inl e ↦ rw e refl
          | inr (x, e) ↦ rw e refl
        ]

  add_podcast-Only :
      (c : Configuration D) (files : Files) (body fresh : String)
      → OnlyPodcasts c (Items.add_podcast json texts dates podcast_store parse files c body fresh).1
  unfolding Items.add_podcast podcast_store Configuration.add_podcast_source
  add_podcast-Only c files body fresh =
      elim (Option-cases (
        Items.read_body
          (λ o.
            podcast_from_json dates.file_name dates.local_name dates.in_cache json texts
              dates.invalid_date files o fresh)
          (parse body))) [ inl e ↦ rw e refl | inr (x, e) ↦ rw e refl ]

  -- A request for alarms, stations or podcasts leaves the items of the other two alone, and every
  -- other setting; one that reads, and one for a path that is not there, changes nothing. Only a new
  -- podcast can change the files.
  pub serve-Kept :
      (s : Server D) (call : Call) → Kept call s (serve json texts dates stoi parse s call).0
  unfolding serve serve_alarms serve_radios serve_podcasts replied
  serve-Kept s (alarms (read_list offset len)) = refl
  serve-Kept s (alarms (add body fresh)) = (add_alarm-Only s.stores body fresh, refl)
  serve-Kept s (alarms (get_one uid)) = refl
  serve-Kept s (alarms (delete_one uid)) = (delete_alarm-Only s.stores uid, refl)
  serve-Kept s (radios (read_list offset len)) = refl
  serve-Kept s (radios (add body fresh)) = (add_station-Only s.stores body fresh, refl)
  serve-Kept s (radios (get_one uid)) = refl
  serve-Kept s (radios (delete_one uid)) = (delete_station-Only s.stores uid, refl)
  serve-Kept s (podcasts (read_list offset len)) = refl
  serve-Kept s (podcasts (add body fresh)) = add_podcast-Only s.stores s.files body fresh
  serve-Kept s (podcasts (get_one uid)) = refl
  serve-Kept s (podcasts (delete_one uid)) = (delete_podcast-Only s.stores uid, refl)
  serve-Kept s elsewhere = refl
