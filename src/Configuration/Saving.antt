-- ===== src/Configuration/Saving.antt =====
-- What the configuration file holds after changes through the setters and writes by the timer of
-- libsrc/configuration.cpp.
use digital_rooster_gui.Base.{
  String, ℕ, ◌≡◌, refl, ap, subst, ◌∙◌, Bool, true, false, List, some, arith, Bool-cases, inl, inr,
}
use digital_rooster_gui.Base.Int.{ℤ}
use digital_rooster_gui.Double.{Double}
use digital_rooster_gui.Json.{Json, Texts, Trees}
use digital_rooster_gui.Podcast.Cache.{Dates}
use digital_rooster_gui.Alarm
use digital_rooster_gui.Alarm.{Alarm}
use digital_rooster_gui.Playable.{PlayableItem}
use digital_rooster_gui.Podcast.{PodcastSource}
use digital_rooster_gui.Configuration.{
  Configuration, Signal, data_changed, add_alarm, delete_alarm, add_radio_station,
  delete_radio_station, add_podcast_source, delete_podcast_source, set_standby_brightness,
  set_active_brightness, enable_backlight_control, set_sleep_timeout, set_volume, change_alarm,
}
use digital_rooster_gui.Configuration.Reading.{World, appconfig}
use digital_rooster_gui.Configuration.Watching.{Watched, timer_event, write_config_file}

module _ {D : Type 0} (f : Double D) where
  -- The changes that the configuration takes note of; `notices` is the slot for a change of a podcast
  -- source. An alarm is changed by its row.
  pub data Step : Configuration D → Configuration D → Type 0 where
    adds_alarm : (c : Configuration D) (a : Alarm) → Step c (add_alarm c a).0
    deletes_alarm :
        (c c' : Configuration D) (id : ℕ) (ss : List Signal)
        → delete_alarm c id ≡ some (c', ss)
        → Step c c'
    enables :
        (c : Configuration D) (row : ℕ) (b : Bool)
        → Step c (change_alarm c row (λ a. Alarm.enable a b)).0
    sets_time :
        (c : Configuration D) (row t : ℕ) → Step c (change_alarm c row (λ a. Alarm.set_time a t)).0
    adds_station : (c : Configuration D) (i : PlayableItem) → Step c (add_radio_station c i).0
    deletes_station :
        (c c' : Configuration D) (id : ℕ) (ss : List Signal)
        → delete_radio_station c id ≡ some (c', ss)
        → Step c c'
    adds_podcast : (c : Configuration D) (p : PodcastSource) → Step c (add_podcast_source c p).0
    deletes_podcast :
        (c c' : Configuration D) (id : ℕ) (ss : List Signal)
        → delete_podcast_source c id ≡ some (c', ss)
        → Step c c'
    sets_standby : (c : Configuration D) (b : ℤ) → Step c (set_standby_brightness c b)
    sets_active : (c : Configuration D) (b : ℤ) → Step c (set_active_brightness c b)
    sets_timeout : (c : Configuration D) (t : ℤ) → Step c (set_sleep_timeout c t)
    sets_volume : (c : Configuration D) (v : D) → Step c (set_volume f c v)
    sets_url :
        (c : Configuration D) (row : ℕ) (url : String)
        → Step c (change_alarm c row (λ a. Alarm.update_media_url a url)).0
    notices : (c : Configuration D) → Step c (data_changed c)

  Step-dirty : {c d : Configuration D} → Step c d → d.dirty ≡ false → c ≡ d
  unfolding add_alarm delete_alarm change_alarm add_radio_station delete_radio_station
      add_podcast_source delete_podcast_source set_standby_brightness set_active_brightness
      set_sleep_timeout set_volume Alarm.enable Alarm.set_time Alarm.update_media_url data_changed
  Step-dirty (adds_alarm c a) h = ground arith
  Step-dirty (deletes_alarm c c' id ss e) h = ground arith
  Step-dirty (enables c row b) h = ground arith
  Step-dirty (sets_time c row t) h = ground arith
  Step-dirty (adds_station c i) h = ground arith
  Step-dirty (deletes_station c c' id ss e) h = ground arith
  Step-dirty (adds_podcast c p) h = ground arith
  Step-dirty (deletes_podcast c c' id ss e) h = ground arith
  Step-dirty (sets_standby c b) h = ground arith
  Step-dirty (sets_active c b) h = ground arith
  Step-dirty (sets_timeout c t) h = ground arith
  Step-dirty (sets_volume c v) h = ground arith
  Step-dirty (sets_url c row url) h = ground arith
  Step-dirty (notices c) h = ground arith

  module _ {Object Value : Type 0} (json : Json Object Value) (trees : Trees D Object Value json)
      (texts : Texts) (dates : Dates) (world : World Object) where
    -- What changes a configuration with its file: a setter, and the timer, whose write succeeds.
    pub data Run (w : Watched D Object) : Watched D Object → Type 0 where
      here : Run w w
      changes :
          {v : Watched D Object} {c : Configuration D}
          → Run w v
          → Step v.config c
          → Run w (record v { config = c })
      ticks :
          {v : Watched D Object}
          → Run w v
          → Run w (timer_event f json trees texts dates world v true)

    -- The file has the object of the settings.
    abbrev pub InFile : Watched D Object → Type 0
    InFile w = w.disk ≡ some (appconfig f json trees texts dates world w.config.settings)

    tick-InFile :
        (w : Watched D Object)
        → (w.config.dirty ≡ false → InFile w)
        → InFile (timer_event f json trees texts dates world w true)
    unfolding timer_event write_config_file
    tick-InFile w h = elim (Bool-cases w.config.dirty) [ inl e ↦ rw e refl | inr e ↦ rw e (h e) ]

    -- Where no write is due, the file is up to date.
    Run-InFile : {w v : Watched D Object} → InFile w → Run w v → v.config.dirty ≡ false → InFile v
    Run-InFile good here = λ _. good
    Run-InFile good (changes {v} {c} r s) = λ h.
        let same = Step-dirty s h in
        subst (λ d. v.disk ≡ some (appconfig f json trees texts dates world d.settings)) same
          (Run-InFile good r (ap (λ d. d.dirty) same ∙ h))
    Run-InFile good (ticks {v} r) = λ _. tick-InFile v (Run-InFile good r)

    tick-settings :
        (w : Watched D Object) (commits : Bool)
        → (timer_event f json trees texts dates world w commits).config.settings ≡ w.config.settings
    unfolding timer_event write_config_file
    tick-settings w commits = elim (Bool-cases w.config.dirty) [
      | inl e ↦ rw e refl
      | inr e ↦ rw e refl
    ]

    -- From a state in which the file has the JSON object of the settings, after any sequence of the
    -- steps above (adding and deleting alarms, stations and podcasts, enabling an alarm, setting its
    -- time or URL, setting a brightness, the sleep timeout or the volume, a change of a podcast, and
    -- events of the timer whose writes succeed), the next event of the timer whose write succeeds
    -- leaves the settings alone and the file with their object.
    pub tick-saves :
        {w v : Watched D Object}
        → InFile w
        → Run w v
        → let u = timer_event f json trees texts dates world v true in
          (u.config.settings ≡ v.config.settings)
          × (u.disk ≡ some (appconfig f json trees texts dates world v.config.settings))
    tick-saves {w} {v} good r = (
      tick-settings v true,
      tick-InFile v (Run-InFile good r)
          ∙ ap (λ s. some (appconfig f json trees texts dates world s)) (tick-settings v true),
    )

    -- Where the write of a change fails, the flag is reset all the same: the file and the settings stay
    -- as they were, and the next event of the timer, which could write, does not.
    pub failed_write_forgotten :
        (w : Watched D Object)
        → w.config.dirty ≡ true
        → let v = timer_event f json trees texts dates world w false in
          let u = timer_event f json trees texts dates world v true in
          (v.config.dirty ≡ false)
          × (v.disk ≡ w.disk)
          × (u.disk ≡ w.disk)
          × (u.config.settings ≡ w.config.settings)
    unfolding timer_event write_config_file
    failed_write_forgotten w due = rw due (refl, refl, refl, refl)

    -- A change of the backlight control alone is not written.
    pub backlight_control_unsaved :
        (w : Watched D Object) (ena : Bool)
        → w.config.dirty ≡ false
        → let v = record w { config = enable_backlight_control w.config ena } in
          timer_event f json trees texts dates world v true ≡ v
    unfolding timer_event enable_backlight_control
    backlight_control_unsaved w ena clean = rw clean refl
