-- ===== src/Configuration/Maps.antt =====
-- include/IAlarmStore.hpp, include/IStationStore.hpp and include/IPodcastStore.hpp: what a client
-- sees of a store, a finite map from UUIDs to items, and the three stores of the configuration.
use digital_rooster_gui.Base.{
  ℕ, ◌≡◌, refl, true, List, [], ◌∷◌, ◌++◌, Option, none, some, arith, ◌==◌, if◌then◌else◌,
}
use digital_rooster_gui.Alarm.{Alarm}
use digital_rooster_gui.Playable.{PlayableItem}
use digital_rooster_gui.Podcast.{PodcastSource}
use digital_rooster_gui.Configuration.{
  Configuration, Signal, find_by_id, delete_by_id, remove_id, alarm_id, station_id, podcast_id,
  data_changed, with_alarms, with_stations, with_podcasts, add_alarm, get_alarm, delete_alarm,
  add_radio_station, get_station, delete_radio_station, add_podcast_source, get_podcast_source,
  delete_podcast_source,
}
use digital_rooster_gui.Configuration.Stores.{find-remove_id, length-remove_id}

-- `none` is std::out_of_range.
pub record Store (C T : Type 0) : Type 0 where
  pub find : C → ℕ → Option T
  pub add : C → T → C
  pub delete : C → ℕ → Option C
  pub id : T → ℕ

abbrev pub or_else : {T : Type 0} → Option T → Option T → Option T
or_else none o = o
or_else (some x) o = some x

-- The store is a finite map, in which an item that is there is not replaced.
pub record IsMap {C T : Type 0} (s : Store C T) : Type 0 where
  pub find-add :
      (c : C) (a : T) (n : ℕ)
      → s.find (s.add c a) n ≡ or_else (s.find c n) (if s.id a == n then some a else none)
  pub delete-missing : (c : C) (n : ℕ) → s.find c n ≡ none → s.delete c n ≡ none
  pub delete-found :
      (c : C) (n : ℕ) (x : T)
      → s.find c n ≡ some x
      → (c' : C) × (s.delete c n ≡ some c')
        × ((m : ℕ) → s.find c' m ≡ (if n == m then none else s.find c m))

module _ {T : Type 0} (get_id : T → ℕ) where
  find-append :
      (xs : List T) (a : T) (n : ℕ)
      → find_by_id get_id (xs ++ a ∷ []) n
        ≡ or_else (find_by_id get_id xs n) (if get_id a == n then some a else none)
  unfolding find_by_id
  find-append [] a n = refl
  find-append (x ∷ xs) a n = ground (arith, find-append xs a n)

  delete-missing :
      (xs : List T) (n : ℕ) → find_by_id get_id xs n ≡ none → delete_by_id get_id xs n ≡ none
  unfolding delete_by_id
  delete-missing xs n h = ground (arith, length-remove_id get_id xs n)

  delete-found :
      (xs : List T) (n : ℕ) (x : T)
      → find_by_id get_id xs n ≡ some x
      → delete_by_id get_id xs n ≡ some (remove_id get_id xs n)
  unfolding delete_by_id
  delete-found xs n x h = ground (arith, length-remove_id get_id xs n)

module _ {D : Type 0} where
  pub deletes :
      (c : Configuration D) (n : ℕ) (x : Alarm)
      → find_by_id alarm_id c.alarms n ≡ some x
      → delete_alarm c n
        ≡ some (
          record c {
            settings = record c.settings { alarms = remove_id alarm_id c.alarms n };
            dirty = true;
          },
          Signal.alarms_changed ∷ [],
        )
  unfolding delete_alarm
  deletes c n x found = rw (found, delete-found alarm_id c.alarms n x found) refl

  -- The store after a deletion, without the signal.
  abbrev pub left : Option (Configuration D × List Signal) → Option (Configuration D)
  left none = none
  left (some (c, signals)) = some c

  unfoldable pub alarm_store : Store (Configuration D) Alarm
  alarm_store = record {
    find = get_alarm;
    add = λ c a. (add_alarm c a).0;
    delete = λ c n. left (delete_alarm c n);
    id = alarm_id;
  }

  unfoldable pub station_store : Store (Configuration D) PlayableItem
  station_store = record {
    find = get_station;
    add = λ c i. (add_radio_station c i).0;
    delete = λ c n. left (delete_radio_station c n);
    id = station_id;
  }

  unfoldable pub podcast_store : Store (Configuration D) PodcastSource
  podcast_store = record {
    find = get_podcast_source;
    add = λ c p. (add_podcast_source c p).0;
    delete = λ c n. left (delete_podcast_source c n);
    id = podcast_id;
  }

  -- The three stores of the configuration are finite maps.
  pub stores-IsMap : IsMap (alarm_store) × IsMap (station_store) × IsMap (podcast_store)
  unfolding alarm_store station_store podcast_store get_alarm add_alarm delete_alarm get_station
      add_radio_station delete_radio_station get_podcast_source add_podcast_source
      delete_podcast_source
  stores-IsMap = (
    record {
      find-add = λ c a n. find-append alarm_id c.alarms a n;
      delete-missing = λ c n h. rw h;
      delete-found = λ c n x h. (
        data_changed (with_alarms c (remove_id alarm_id c.alarms n)),
        rw (h, delete-found alarm_id c.alarms n x h),
        λ m. find-remove_id alarm_id c.alarms n m,
      );
    },
    record {
      find-add = λ c a n. find-append station_id c.stream_sources a n;
      delete-missing = λ c n h. rw (delete-missing station_id c.stream_sources n h);
      delete-found = λ c n x h. (
        data_changed (with_stations c (remove_id station_id c.stream_sources n)),
        rw (delete-found station_id c.stream_sources n x h),
        λ m. find-remove_id station_id c.stream_sources n m,
      );
    },
    record {
      find-add = λ c a n. find-append podcast_id c.podcast_sources a n;
      delete-missing = λ c n h. rw (delete-missing podcast_id c.podcast_sources n h);
      delete-found = λ c n x h. (
        data_changed (with_podcasts c (remove_id podcast_id c.podcast_sources n)),
        rw (delete-found podcast_id c.podcast_sources n x h),
        λ m. find-remove_id podcast_id c.podcast_sources n m,
      );
    },
  )
