-- ===== src/Tests/Watching.antt =====
-- The configuration file, edited by another program.
use digital_rooster_gui.Base.{ℕ, ◌≡◌, refl, true, false, inl, List, [], ◌∷◌, some}
use digital_rooster_gui.Configuration.Reading.{appconfig, refresh_configuration}
use digital_rooster_gui.Configuration.Reading.Storable.{restarted}
use digital_rooster_gui.Configuration.Watching.{
  Watched, Event, tick, sets, edited, replaced, start_watching, run, timer_event,
}
use digital_rooster_gui.Configuration.Watching.Edits.{IsWatching, run-IsWatching}
use digital_rooster_gui.Configuration.Watching.Reload.{edit_taken_over, second_replacement_lost}
use digital_rooster_gui.Base.Int.{pos}
use digital_rooster_gui.Configuration.{set_sleep_timeout}
use digital_rooster_gui.Configuration.Saving
use digital_rooster_gui.Configuration.Saving.{
  Run, here, changes, tick-saves, failed_write_forgotten,
}
use digital_rooster_gui.Tests.Instances.{Object, pairs, nested, whole, tallies}
use digital_rooster_gui.Tests.Feeds.{dates, no_files}
use digital_rooster_gui.Tests.Settings.{stored, loaded}
use digital_rooster_gui.Tests.Restarts.{world, saved, saved-IsStorable}

abbrev document : Object
document = appconfig whole pairs nested tallies dates world saved

abbrev watched : Watched ℕ Object
watched = start_watching loaded no_files (some document)

watched-IsWatching : IsWatching whole pairs nested tallies dates world watched
unfolding start_watching
watched-IsWatching = (refl, inl refl)

abbrev events : List (Event ℕ Object)
events = replaced document ∷ sets stored false ∷ edited document ∷ tick true ∷ []

run-IsWatching_example :
    (w : Watched ℕ Object) × (run whole pairs nested tallies dates world watched events ≡ some w)
    × IsWatching whole pairs nested tallies dates world w
run-IsWatching_example =
    run-IsWatching whole pairs nested tallies dates world watched events
      (tt, (tt, (tt, (refl, tt)))) watched-IsWatching

edit_taken_over_example :
    (w : Watched ℕ Object) × (run whole pairs nested tallies dates world watched
        (tick true ∷ edited document ∷ [])
      ≡ some w)
    × (w.config.settings ≡ restarted whole pairs nested tallies dates world saved)
    × (w.config.dirty ≡ true)
unfolding start_watching
edit_taken_over_example =
    edit_taken_over whole pairs nested tallies dates world saved saved-IsStorable watched
      watched-IsWatching refl

second_replacement_lost_example :
    let read =
      (refresh_configuration whole pairs nested tallies dates world no_files loaded
        (some document)).1 in
    (w : Watched ℕ Object) × (run whole pairs nested tallies dates world watched
        (replaced document ∷ replaced [] ∷ tick true ∷ [])
      ≡ some w)
    × (w.disk ≡ some (appconfig whole pairs nested tallies dates world read.settings))
    × (w.config.settings ≡ read.settings)
    × (w.config.dirty ≡ false)
unfolding start_watching
second_replacement_lost_example =
    second_replacement_lost whole pairs nested tallies dates world watched document [] refl refl

-- The file has the settings, and then the sleep timeout is set.
abbrev in_step : Watched ℕ Object
in_step =
    start_watching loaded no_files (some (appconfig whole pairs nested tallies dates world stored))

abbrev set_since : Watched ℕ Object
set_since = record in_step { config = set_sleep_timeout loaded (pos 15) }

one_change : Run whole pairs nested tallies dates world in_step set_since
unfolding start_watching
one_change = changes here (Saving.sets_timeout loaded (pos 15))

tick-saves_example :
    let u = timer_event whole pairs nested tallies dates world set_since true in
    (u.config.settings ≡ set_since.config.settings)
    × (u.disk ≡ some (appconfig whole pairs nested tallies dates world set_since.config.settings))
unfolding start_watching
tick-saves_example = tick-saves whole pairs nested tallies dates world refl one_change

-- The new timeout cannot be written, and stays unwritten when the file can be written again.
failed_write_forgotten_example :
    let v = timer_event whole pairs nested tallies dates world set_since false in
    let u = timer_event whole pairs nested tallies dates world v true in
    (v.config.dirty ≡ false)
    × (v.disk ≡ set_since.disk)
    × (u.disk ≡ set_since.disk)
    × (u.config.settings ≡ set_since.config.settings)
unfolding start_watching set_sleep_timeout
failed_write_forgotten_example =
    failed_write_forgotten whole pairs nested tallies dates world set_since refl
