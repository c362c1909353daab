-- ===== src/Configuration/Watching/Edits.antt =====
-- Edits of the configuration file by other programs.
use digital_rooster_gui.Base.{
  ◌≡◌, refl, ap, ◌∙◌, ◌⊎◌, inl, inr, Bool, true, false, ◌||◌, List, [], ◌∷◌, some, if◌then◌else◌,
  All, arith, Bool-cases,
}
use digital_rooster_gui.Double.{Double}
use digital_rooster_gui.Json.{Json, Texts, Trees}
use digital_rooster_gui.Podcast.Cache.{Dates}
use digital_rooster_gui.Configuration.Reading.{World, refresh_configuration}
use digital_rooster_gui.Configuration.Reading.Marks.{refresh-dirty}
use digital_rooster_gui.Configuration.Watching.{
  Watched, Event, tick, sets, edited, replaced, removed, write_config_file, timer_event,
  file_changed, notified, handle, after, run,
}

-- Writing does not fail, and the file is not removed without another in its place.
abbrev pub Benign : {D Object : Type 0} → Event D Object → Type 0
Benign (tick commits) = commits ≡ true
Benign removed = ⊥
Benign _ = Unit

module _ {D Object Value : Type 0} (f : Double D) (json : Json Object Value)
    (trees : Trees D Object Value json) (texts : Texts) (dates : Dates) (world : World Object) where
  -- The slot is connected, and the file is watched or about to be written.
  abbrev pub IsWatching : Watched D Object → Type 0
  IsWatching w = (w.connected ≡ true) × ((w.path_watched ≡ true) ⊎ (w.config.dirty ≡ true))

  file_changed-IsWatching :
      (w : Watched D Object) (o : Object)
      → w.disk ≡ some o
      → w.connected ≡ true
      → (w' : Watched D Object) × (file_changed f json trees texts dates world w ≡ some w')
        × IsWatching w'
  unfolding file_changed
  file_changed-IsWatching w o there on =
      let (dirty, fine) = refresh-dirty f json trees texts dates world w.files w.config o in
      (
        record w {
          files =
              (refresh_configuration f json trees texts dates world w.files w.config (some o)).0;
          config =
              (refresh_configuration f json trees texts dates world w.files w.config (some o)).1;
        },
        rw (there, fine) refl,
        (on, inr dirty),
      )

  notified-IsWatching :
      (watched : Bool) (w : Watched D Object) (o : Object)
      → w.disk ≡ some o
      → w.connected ≡ true
      → (watched ≡ false → IsWatching w)
      → (w' : Watched D Object) × (notified f json trees texts dates world watched w ≡ some w')
        × IsWatching w'
  unfolding notified
  notified-IsWatching true w o there on h =
      let (w', e, good) = file_changed-IsWatching w o there on in
      (
        w',
        ap (λ b. if b then file_changed f json trees texts dates world w else some w) on ∙ e,
        good,
      )
  notified-IsWatching false w o there on h = (w, refl, h refl)

  written-IsWatching :
      (w : Watched D Object) (o : Object)
      → IsWatching (write_config_file f json trees texts dates world w o true)
  unfolding write_config_file
  written-IsWatching w o = (refl, inl refl)

  timer_event-IsWatching :
      (w : Watched D Object)
      → IsWatching w
      → IsWatching (timer_event f json trees texts dates world w true)
  unfolding timer_event write_config_file
  timer_event-IsWatching w (on, watch) = elim (Bool-cases w.config.dirty) [
    | inl e ↦ rw e (refl, inl refl)
    | inr e ↦ rw e (on, ground (arith, watch))
  ]

  handle-IsWatching :
      (w : Watched D Object) (e : Event D Object)
      → Benign e
      → IsWatching w
      → (w' : Watched D Object) × (handle f json trees texts dates world w e ≡ some w')
        × IsWatching w'
  unfolding handle
  handle-IsWatching w (tick commits) h good =
      (timer_event f json trees texts dates world w true, rw h refl, timer_event-IsWatching w good)
  handle-IsWatching w (sets s marks) h (on, watch) = (
    record w { config = record w.config { settings = s; dirty = w.config.dirty || marks } },
    refl,
    (on, ground (arith, watch)),
  )
  handle-IsWatching w (edited o) h (on, watch) =
      notified-IsWatching w.path_watched (record w { disk = some o }) o refl on (λ _. (on, watch))
  handle-IsWatching w (replaced o) h (on, watch) =
      notified-IsWatching w.path_watched (record w { disk = some o; path_watched = false }) o refl
        on (λ e. (on, inr (ground (arith, watch, e))))
  handle-IsWatching w removed h good = absurd h

  -- Whatever other programs write into the configuration file or put in its place, whatever is set,
  -- and however often the timer runs, no exception leaves the slot, the slot stays connected, and the
  -- file is watched or a write is due that watches it again, as long as writing does not fail and
  -- the file is not removed without another in its place.
  pub run-IsWatching :
      (w : Watched D Object) (es : List (Event D Object))
      → All Benign es
      → IsWatching w
      → (w' : Watched D Object) × (run f json trees texts dates world w es ≡ some w')
        × IsWatching w'
  unfolding run after
  run-IsWatching w [] h good = (w, refl, good)
  run-IsWatching w (e ∷ es) h good =
      let (w₁, step, good₁) = handle-IsWatching w e h.0 good in
      let (w₂, rest, good₂) = run-IsWatching w₁ es h.1 good₁ in (w₂, rw step rest, good₂)
