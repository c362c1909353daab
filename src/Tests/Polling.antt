-- ===== src/Tests/Polling.antt =====
-- The periodic update of a podcast.
use digital_rooster_gui.Base.{◌*◌, arith, ◌≡◌, List, [], ◌∷◌, some, ltb}
use digital_rooster_gui.Base.Int.{pos, pos_part}
use digital_rooster_gui.Podcast.{PodcastSource}
use digital_rooster_gui.Update.{Effect, fetch, Event, new_task, handle, run, task_timer}
use digital_rooster_gui.Update.Runs.{IsPolled, run_fetches}
use digital_rooster_gui.Tests.Instances.{ltb-IsStrictWeakOrder}
use digital_rooster_gui.Tests.Playing.{feed, feed-IsValid}
use digital_rooster_gui.Tests.Feeds.{formats, document, broken_document, no_files}

-- A document, a purge, another interval and a document that breaks off.
abbrev events : List Event
events =
    Event.arrives 99 no_files document
    ∷ Event.purges
    ∷ Event.sets_interval (pos 60)
    ∷ Event.arrives 100 no_files broken_document
    ∷ []

run_fetches_example :
    (u : PodcastSource × List Effect) × (run formats (new_task feed).0 events ≡ some u)
    × IsPolled ltb feed u.0
    × (task_timer u.0 ≡ some (pos (1000 * pos_part u.0.update_interval)))
    × (handle formats u.0 Event.times_out ≡ some (u.0, fetch feed.rss_feed_uri ∷ []))
    × (handle formats u.0 Event.refreshes ≡ some (u.0, fetch feed.rss_feed_uri ∷ []))
run_fetches_example =
    run_fetches formats ltb-IsStrictWeakOrder feed events feed-IsValid (omega arith, omega arith)
      (tt, (tt, ((omega arith, omega arith), (tt, tt))))
