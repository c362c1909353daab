-- ===== src/Configuration/Watching/Reload.antt =====
-- What becomes of the settings that other programs put into the configuration file.
use digital_rooster_gui.Base.{
  ◌≡◌, refl, ap, ◌∙◌, inl, inr, true, false, [], ◌∷◌, some, arith, Bool-cases,
}
use digital_rooster_gui.Double.{Double}
use digital_rooster_gui.Json.{Json, Texts, Trees}
use digital_rooster_gui.Podcast.Cache.{Dates}
use digital_rooster_gui.Configuration.{Settings}
use digital_rooster_gui.Configuration.Reading.{World, appconfig, refresh_configuration}
use digital_rooster_gui.Configuration.Reading.Marks.{refresh-dirty}
use digital_rooster_gui.Configuration.Reading.Storable.{IsStorable, restarted}
use digital_rooster_gui.Configuration.Reading.Restart.{refresh_configuration-restarted}
use digital_rooster_gui.Configuration.Watching.{
  Watched, tick, edited, replaced, write_config_file, timer_event, file_changed, notified, handle,
  after, run,
}
use digital_rooster_gui.Configuration.Watching.Edits.{IsWatching}

module _ {D Object Value : Type 0} (f : Double D) (json : Json Object Value)
    (trees : Trees D Object Value json) (texts : Texts) (dates : Dates) (world : World Object) where
  tick_outcome :
      (w : Watched D Object)
      → IsWatching f json trees texts dates world w
      → let w' = timer_event f json trees texts dates world w true in
        (w'.path_watched ≡ true) × (w'.connected ≡ true) × (w'.files ≡ w.files)
  unfolding timer_event write_config_file
  tick_outcome w (on, watch) = elim (Bool-cases w.config.dirty) [
    | inl e ↦ rw e (refl, refl, refl)
    | inr e ↦ rw e (ground (arith, watch), on, refl)
  ]

  module _ (s : Settings D) (storable : IsStorable texts f world s) where
    read_back :
        (w : Watched D Object)
        → w.path_watched ≡ true
        → w.connected ≡ true
        → w.files "" ≡ false
        → (w' : Watched D Object) × (handle f json trees texts dates world w
              (edited (appconfig f json trees texts dates world s))
            ≡ some w')
          × (w'.config.settings ≡ restarted f json trees texts dates world s)
          × (w'.config.dirty ≡ true)
    unfolding handle notified file_changed
    read_back w watched on no_icon = (
      record w {
        disk = some (appconfig f json trees texts dates world s);
        config = record w.config {
          settings = restarted f json trees texts dates world s;
          dirty = true;
        };
      },
      rw
          (
            watched,
            on,
            refresh_configuration-restarted f json trees texts dates world s storable w.files
                no_icon w.config,
          )
          refl,
      refl,
      refl,
    )

    -- In a state where the slot is connected and the file is watched or a write is due, and where no
    -- file has an empty name, after the next event of the timer, if it can write the file, the
    -- settings that another program writes into it, in their ranges and without cache files, are
    -- taken over like those of a restart, and a write is due.
    pub edit_taken_over :
        (w : Watched D Object)
        → IsWatching f json trees texts dates world w
        → w.files "" ≡ false
        → (w' : Watched D Object) × (run f json trees texts dates world w
              (tick true ∷ edited (appconfig f json trees texts dates world s) ∷ [])
            ≡ some w')
          × (w'.config.settings ≡ restarted f json trees texts dates world s)
          × (w'.config.dirty ≡ true)
    unfolding run after handle
    edit_taken_over w good no_icon =
        let w₁ = timer_event f json trees texts dates world w true in
        let (watched, on, same) = tick_outcome w good in
        let (w₂, step, settings, due) =
          read_back w₁ watched on (ap (λ files. files "") same ∙ no_icon) in
        (w₂, ap (λ r. after f json trees texts dates world r (λ v. some v)) step, settings, due)

  -- Where another program replaces the file twice before the timer runs, while the file is watched
  -- and the slot connected, the second file is not read: the timer overwrites it with the settings of
  -- the first.
  pub second_replacement_lost :
      (w : Watched D Object) (first second : Object)
      → w.path_watched ≡ true
      → w.connected ≡ true
      → let read =
          (refresh_configuration f json trees texts dates world w.files w.config (some first)).1 in
        (w' : Watched D Object) × (run f json trees texts dates world w
            (replaced first ∷ replaced second ∷ tick true ∷ [])
          ≡ some w')
        × (w'.disk ≡ some (appconfig f json trees texts dates world read.settings))
        × (w'.config.settings ≡ read.settings)
        × (w'.config.dirty ≡ false)
  unfolding run after handle notified file_changed timer_event write_config_file
  second_replacement_lost w first second watched on =
      let (due, fine) = refresh-dirty f json trees texts dates world w.files w.config first in
      let (files, c, thrown) =
        refresh_configuration f json trees texts dates world w.files w.config (some first) in
      (
        record {
          config = record c { dirty = false };
          files = files;
          disk = some (appconfig f json trees texts dates world c.settings);
          path_watched = true;
          connected = true;
        },
        rw (watched, on, fine, due) refl,
        refl,
        refl,
        refl,
      )
