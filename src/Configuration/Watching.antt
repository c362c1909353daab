-- ===== src/Configuration/Watching.antt =====
-- The file watcher of libsrc/configuration.cpp: write_config_file, timerEvent and fileChanged.
-- QFileSystemWatcher tells of a file that it watches when the file is modified, renamed or removed,
-- and stops watching it once it was renamed or removed; addPath fails for a file that is not there.
pub mod Edits
pub mod Reload
use digital_rooster_gui.Base.{
  ℕ, Bool, true, false, not, ◌&&◌, ◌||◌, List, [], ◌∷◌, Option, none, some, if◌then◌else◌,
}
use digital_rooster_gui.Double.{Double}
use digital_rooster_gui.Json.{Json, Texts, Trees}
use digital_rooster_gui.Podcast.Icon.{Files}
use digital_rooster_gui.Podcast.Cache.{Dates}
use digital_rooster_gui.Configuration.{Configuration, Settings}
use digital_rooster_gui.Configuration.Reading.{World, appconfig, refresh_configuration}

-- `disk` is what the configuration file holds, `none` where there is none; `connected` is whether
-- fwConn is, `path_watched` whether the watcher has the path.
pub record Watched (D Object : Type 0) : Type 0 where
  pub config : Configuration D
  pub files : Files
  pub disk : Option Object
  pub path_watched : Bool
  pub connected : Bool

-- The timer, with whether the file can be written; a setter, with the settings that it leaves and
-- whether it marks a change; another program that writes into the file, puts another file in its
-- place, or removes it.
pub data Event (D Object : Type 0) : Type 0 where
  tick : Bool → Event D Object
  sets : Settings D → Bool → Event D Object
  edited replaced : Object → Event D Object
  removed : Event D Object

abbrev pub exists : {A : Type 0} → Option A → Bool
exists none = false
exists (some a) = true

-- The watch that the constructor starts.
unfoldable pub start_watching :
    {D Object : Type 0} → Configuration D → Files → Option Object → Watched D Object
start_watching c files disk = record {
  config = c;
  files = files;
  disk = disk;
  path_watched = exists disk;
  connected = true;
}

module _ {D Object Value : Type 0} (f : Double D) (json : Json Object Value)
    (trees : Trees D Object Value json) (texts : Texts) (dates : Dates) (world : World Object) where
  -- `commits` is whether QSaveFile can write the file.
  unfoldable pub write_config_file : Watched D Object → Object → Bool → Watched D Object
  write_config_file w o commits =
      let w₁ : Watched D Object = record w { connected = false; path_watched = false } in
      let w₂ : Watched D Object = record w₁ { disk = if commits then some o else w₁.disk } in
      record w₂ { connected = true; path_watched = exists w₂.disk }

  unfoldable pub timer_event : Watched D Object → Bool → Watched D Object
  timer_event w commits =
      let s = w.config.settings in
      if w.config.dirty
      then (let w' = write_config_file w (appconfig f json trees texts dates world s) commits in
          record w' { config = record w'.config { dirty = not w'.config.dirty } })
      else w

  -- `none` is an exception that leaves the slot.
  unfoldable pub file_changed : Watched D Object → Option (Watched D Object)
  file_changed w =
      let (files, c, thrown) =
        refresh_configuration f json trees texts dates world w.files w.config w.disk in
      if thrown then none else some (record w { files = files; config = c })

  -- The signal of the watcher, if it is sent, and its slot, if it is connected.
  notified : Bool → Watched D Object → Option (Watched D Object)
  notified watched w = if watched && w.connected then file_changed w else some w

  unfoldable pub handle : Watched D Object → Event D Object → Option (Watched D Object)
  unfolding notified
  handle w (tick commits) = some (timer_event w commits)
  handle w (sets s marks) =
      some (record w { config = record w.config { settings = s; dirty = w.config.dirty || marks } })
  handle w (edited o) = notified w.path_watched (record w { disk = some o })
  handle w (replaced o) = notified w.path_watched (record w { disk = some o; path_watched = false })
  handle w removed = notified w.path_watched (record w { disk = none; path_watched = false })

  after :
      Option (Watched D Object)
      → (Watched D Object → Option (Watched D Object))
      → Option (Watched D Object)
  after none k = none
  after (some w) k = k w

  unfoldable pub run : Watched D Object → List (Event D Object) → Option (Watched D Object)
  unfolding after
  run w [] = some w
  run w (e ∷ es) = after (handle w e) (λ w'. run w' es)
