-- ===== src/Configuration/Creating.antt =====
-- The constructor of Configuration in libsrc/configuration.cpp, with its directories and the default
-- configuration. The file system is a parameter: QFileInfo, QDir and QFile. The file watcher and the
-- start of the event timer are left out.
use digital_rooster_gui.Base.{
  ℕ, ◌≡◌, refl, ◌⊎◌, inl, inr, String, Bool, true, false, ◌&&◌, [], ◌∷◌, ◌++◌, Option, none, some,
  if◌then◌else◌, Bool-cases,
}
use digital_rooster_gui.Base.Int.{pos}
use digital_rooster_gui.Double.{Double}
use digital_rooster_gui.Alarm.{workdays, weekend, make, default_alarm_timeout}
use digital_rooster_gui.Playable.Stored.{new_item}
use digital_rooster_gui.Podcast.Stored.{new_source}
use digital_rooster_gui.Configuration.{Settings}
use digital_rooster_gui.Configuration.Reading.{
  default_sleep_timeout, default_volume, default_brightness,
}

-- The file system; `directory` is the directory of a file's path.
pub record Disk (Q : Type 0) : Type 0 where
  pub is_dir : Q → String → Bool
  pub is_writable : Q → String → Bool
  pub exists : Q → String → Bool
  pub mkpath : Q → String → Q
  pub directory : String → String

-- What the build fixes.
pub record Defaults : Type 0 where
  pub cache_dir_path : String
  pub config_file_path : String
  pub wpa_control_socket_path : String
  pub wifi_net_dev_name : String

module _ {Q : Type 0} (k : Disk Q) where
  unfoldable pub is_writable_directory : Q → String → Bool
  is_writable_directory q dir = k.is_dir q dir && k.is_writable q dir

  unfoldable pub create_writable_directory : Q → String → Q × Bool
  create_writable_directory q dir = let q' = k.mkpath q dir in (q', is_writable_directory q' dir)

  -- The directory is there, or it is created.
  unfoldable pub usable : Q → String → Q × Bool
  usable q dir = if is_writable_directory q dir then (q, true) else create_writable_directory q dir

module _ {D : Type 0} (f : Double D) (defaults : Defaults) where
  -- The members before the file is read.
  unfoldable pub initial : Settings D
  initial = record {
    alarms = [];
    stream_sources = [];
    podcast_sources = [];
    global_alarm_timeout = default_alarm_timeout;
    sleep_timeout = pos default_sleep_timeout;
    volume = f.ratio default_volume 1;
    brightness_sb = pos default_brightness;
    brightness_act = pos default_brightness;
    backlight_control_act = true;
    weather_cfg = record { api_token = ""; location_id = ""; update_interval = pos 3600 };
    wpa_socket_name = defaults.wpa_control_socket_path;
    net_dev_name = defaults.wifi_net_dev_name;
  }

  -- The lists of create_default_configuration; `uid` numbers the new UUIDs, `invalid_date` is the
  -- date of a podcast that was never updated.
  unfoldable pub create_default_configuration : ℕ → (ℕ → ℕ) → Settings D → Settings D
  create_default_configuration invalid_date uid s =
      let dlf : String = "https://st01.sslstream.dlf.de/dlf/01/128/mp3/stream.mp3" in
      record s {
        alarms =
            s.alarms
            ++ make dlf 23400000 workdays true (uid 0)
              ∷ make dlf 32400000 weekend false (uid 1)
              ∷ [];
        podcast_sources =
            s.podcast_sources
            ++ new_source invalid_date "http://armscontrolwonk.libsyn.com/rss" (uid 2)
              ∷ new_source invalid_date "https://rss.acast.com/mydadwroteaporno" (uid 3)
              ∷ new_source invalid_date "https://alternativlos.org/alternativlos.rss" (uid 4)
              ∷ [];
        stream_sources =
            s.stream_sources
            ++ new_item "Deutschlandfunk" dlf (uid 5)
              ∷ new_item "FM4" "https://fm4shoutcast.sf.apa.at" (uid 6)
              ∷ new_item "BBC World Service News"
                  "http://bbcwssc.ic.llnwd.net/stream/bbcwssc_mp1_ws-einws" (uid 7)
              ∷ [];
      }

pub record Start (Q D : Type 0) : Type 0 where
  pub disk : Q
  pub application_cache_dir : String
  pub config_file : String
  pub settings : Settings D
  pub stored : Option (Settings D)

module _ {Q D : Type 0} (k : Disk Q) (f : Double D) (defaults : Defaults) (invalid_date : ℕ)
    (uid : ℕ → ℕ) where
  -- check_and_create_config; `stored` is what store_current_config gets.
  unfoldable pub check_and_create_config : Q → String → String → Start Q D
  check_and_create_config q cache path =
      let old : Settings D = initial f defaults in
      let new : Settings D = create_default_configuration f defaults invalid_date uid old in
      if k.exists q path
      then record {
        disk = q;
        application_cache_dir = cache;
        config_file = path;
        settings = old;
        stored = none;
      }
      else record {
        disk = q;
        application_cache_dir = cache;
        config_file = path;
        settings = new;
        stored = some new;
      }

  -- The cache directory, created if need be, or the default one.
  unfoldable pub choose_cache : Q → String → Q × String
  choose_cache q cachedir =
      let (q', ok) = usable k q cachedir in
      if ok then (q', cachedir) else (k.mkpath q' defaults.cache_dir_path, defaults.cache_dir_path)

  unfoldable pub choose_config : Q → String → Q × String
  choose_config q configpath =
      let (q', ok) = usable k q (k.directory configpath) in
      if ok then (q', configpath) else (q', defaults.config_file_path)

  unfoldable pub construct : Q → String → String → Start Q D
  construct q configpath cachedir =
      let (q₁, cache) = choose_cache q cachedir in
      let (q₂, path) = choose_config q₁ configpath in check_and_create_config q₂ cache path

  usable-writable :
      (q : Q) (dir : String)
      → ((usable k q dir).1 ≡ false)
        ⊎ (((usable k q dir).1 ≡ true) × (is_writable_directory k (usable k q dir).0 dir ≡ true))
  unfolding usable create_writable_directory
  usable-writable q dir = elim (Bool-cases (is_writable_directory k q dir)) [
    | inl e ↦ inr (rw e refl, rw e e)
    | inr e ↦ elim (Bool-cases (is_writable_directory k (k.mkpath q dir) dir)) [
      | inl w ↦ inr (rw e w, rw e w)
      | inr w ↦ inl (rw e w)
    ]
  ]

  choose_config_outcome :
      (q : Q) (configpath : String)
      → (((choose_config q configpath).1 ≡ configpath)
          × (is_writable_directory k (choose_config q configpath).0 (k.directory configpath)
              ≡ true))
        ⊎ ((choose_config q configpath).1 ≡ defaults.config_file_path)
  unfolding choose_config
  choose_config_outcome q configpath = elim (usable-writable q (k.directory configpath)) [
    | inl e ↦ inr (rw e refl)
    | inr e ↦ inl (rw (e.0) refl, rw (e.0) (e.1))
  ]

  created_outcome :
      (q : Q) (cache path : String)
      → let c = check_and_create_config q cache path in
        (c.config_file ≡ path)
        × (c.disk ≡ q)
        × (((k.exists q path ≡ true) × (c.settings ≡ initial f defaults) × (c.stored ≡ none))
            ⊎ ((k.exists q path ≡ false)
                × (c.settings
                    ≡ create_default_configuration f defaults invalid_date uid (initial f defaults))
                × (c.stored ≡ some c.settings)))
  unfolding check_and_create_config
  created_outcome q cache path = elim (Bool-cases (k.exists q path)) [
    | inl e ↦ (rw e refl, rw e refl, inl (e, rw e refl, rw e refl))
    | inr e ↦ (rw e refl, rw e refl, inr (e, rw e refl, rw e refl))
  ]

  -- Whatever the file system does, a new configuration uses the given file, and then the directory of
  -- that file exists and is writable, or the default file; the settings are the initial ones if that
  -- file exists, and otherwise the default configuration, which is then stored.
  pub construct_outcome :
      (q : Q) (configpath cachedir : String)
      → let c = construct q configpath cachedir in
        (((c.config_file ≡ configpath)
            × (is_writable_directory k c.disk (k.directory configpath) ≡ true))
          ⊎ (c.config_file ≡ defaults.config_file_path))
        × (((k.exists c.disk c.config_file ≡ true)
              × (c.settings ≡ initial f defaults)
              × (c.stored ≡ none))
            ⊎ ((k.exists c.disk c.config_file ≡ false)
                × (c.settings
                    ≡ create_default_configuration f defaults invalid_date uid (initial f defaults))
                × (c.stored ≡ some c.settings)))
  unfolding construct
  construct_outcome q configpath cachedir =
      let (q₁, cache) = choose_cache q cachedir in
      let r = choose_config q₁ configpath in
      let (path, disk, settings) = created_outcome r.0 cache r.1 in
      rw (path, disk) (choose_config_outcome q₁ configpath, settings)
