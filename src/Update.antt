-- ===== src/Update.antt =====
-- libsrc/UpdateTask.cpp: the periodic update of a podcast source. The `updater` of a
-- source is the number of seconds for which the timer of its task was started last. What HttpClient does between a request and `dataAvailable` is not
-- modelled: the reply is an event of its own, as tokens of QXmlStreamReader.
pub mod Runs
use digital_rooster_gui.Base.{
  ℕ, ◌+◌, ◌*◌, if◌then◌else◌, String, List, [], ◌∷◌, ◌++◌, map, Option, none, some,
}
use digital_rooster_gui.Base.Int.{ℤ, pos, negsuc, ltb_ℤ, int32}
use digital_rooster_gui.Podcast
use digital_rooster_gui.Podcast.{PodcastSource, set_update_task, set_update_interval}
use digital_rooster_gui.Podcast.Icon.{Files}
use digital_rooster_gui.Rss.Tokens.{Token}
use digital_rooster_gui.Rss.{Formats, update_podcast}

pub data Effect : Type 0 where
  of_source : Podcast.Effect → Effect
  fetch : String → Effect

-- UpdateTask::start, for a task that has a source.
unfoldable pub start : PodcastSource → List Effect
start s = fetch s.rss_feed_uri ∷ []

-- The constructor of the task, which PodcastSource::set_update_task takes over.
unfoldable pub new_task : PodcastSource → PodcastSource × List Effect
new_task s = (set_update_task s, start s)

-- PodcastSource::refresh; `none` is the use of a null pointer.
unfoldable pub refresh : PodcastSource → Option (List Effect)
refresh s = elim s.updater [ none ↦ none | some interval ↦ some (start s) ]

-- The milliseconds of so many seconds, as the int that QTimer::start narrows them to.
msec : ℤ → ℤ
msec (pos n) = int32 (pos (1000 * n))
msec (negsuc n) = int32 (negsuc (1000 * n + 999))

-- The interval of the running timer: a negative one does not start it.
unfoldable pub task_timer : PodcastSource → Option ℤ
unfolding msec
task_timer s = elim s.updater [
  | none ↦ none
  | some seconds ↦ if ltb_ℤ (msec seconds) (pos 0) then none else some (msec seconds)
]

-- The slot of the timer, which a timer that does not run never calls.
unfoldable pub timeout : PodcastSource → List Effect
timeout s = elim (task_timer s) [ none ↦ [] | some msec ↦ start s ]

pub data Event : Type 0 where
  times_out refreshes purges : Event
  arrives : ℕ → Files → List Token → Event
  sets_interval : ℤ → Event

module _ (q : Formats) where
  from_source : Option (PodcastSource × List Podcast.Effect) → Option (PodcastSource × List Effect)
  from_source none = none
  from_source (some (s, effects)) = some (s, map (λ e. of_source e) effects)

  -- UpdateTask::dataAvailable
  unfoldable pub data_available :
      ℕ → Files → PodcastSource → List Token → Option (PodcastSource × List Effect)
  unfolding from_source
  data_available now files s tokens = from_source (update_podcast q files now s tokens)

  -- `none` is a null pointer or a loop without end.
  unfoldable pub handle : PodcastSource → Event → Option (PodcastSource × List Effect)
  unfolding from_source
  handle s times_out = some (s, timeout s)
  handle s refreshes = elim (refresh s) [ none ↦ none | some effects ↦ some (s, effects) ]
  handle s purges = from_source (some (Podcast.purge s))
  handle s (arrives now files tokens) = data_available now files s tokens
  handle s (sets_interval interval) = some (set_update_interval s interval, [])

  with_effects :
      List Effect → Option (PodcastSource × List Effect) → Option (PodcastSource × List Effect)
  with_effects effects none = none
  with_effects effects (some (s, more)) = some (s, effects ++ more)

  unfoldable pub run : PodcastSource → List Event → Option (PodcastSource × List Effect)
  unfolding with_effects
  run s [] = some (s, [])
  run s (e ∷ es) = elim (handle s e) [
    | none ↦ none
    | some (s', effects) ↦ with_effects effects (run s' es)
  ]
