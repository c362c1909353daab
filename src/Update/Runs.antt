-- ===== src/Update/Runs.antt =====
-- What holds of a source that is polled, whatever happens to it.
use digital_rooster_gui.Base.{
  ℕ, ◌*◌, All, ◌≡◌, refl, inl, inr, Bool, List, [], ◌∷◌, ◌++◌, some, arith, map, String, Bool-cases,
  str_eq,
}
use digital_rooster_gui.Base.Int.{ℤ, pos, negsuc, pos_part, ◌≤ℤ◌, int32_fits}
use digital_rooster_gui.Base.Sorting.{IsStrictWeakOrder}
use digital_rooster_gui.Podcast
use digital_rooster_gui.Podcast.{
  PodcastSource, add_episode, set_title, set_description, set_link, set_last_updated,
  set_update_interval, set_update_task, purge_episodes, purge_icon_cache,
}
use digital_rooster_gui.Podcast.Icon.{Files, set_image_url}
use digital_rooster_gui.Podcast.Unique.{IsValid, add_episode-IsValid}
use digital_rooster_gui.Rss.Tokens.{Token}
use digital_rooster_gui.Rss.{Formats}
use digital_rooster_gui.Rss.Ends.{IsKept}
use digital_rooster_gui.Rss.Loops.{update_podcast-ends}
use digital_rooster_gui.Update.{
  Effect, of_source, fetch, Event, handle, run, new_task, start, refresh, data_available, timeout,
  task_timer,
}

-- An interval in seconds that is not negative and whose milliseconds fit an int.
abbrev pub IsInterval : ℤ → Type 0
IsInterval i = (pos 0 ≤ℤ i) × (i ≤ℤ pos 2147483)

-- Any event, but for an interval that a timer cannot have.
abbrev pub IsTimed : Event → Type 0
IsTimed (Event.sets_interval i) = IsInterval i
IsTimed _ = Unit

-- The source is valid, its task was started at its interval, which a timer can have, and it has the id
-- and the URL of `s`.
pub record IsPolled (earlier : ℕ → ℕ → Bool) (s s' : PodcastSource) : Type 0 where
  pub valid : IsValid earlier s'
  pub polled : s'.updater ≡ some s'.update_interval
  pub interval : IsInterval s'.update_interval
  pub same_id : s'.id ≡ s.id
  pub same_uri : s'.rss_feed_uri ≡ s.rss_feed_uri

module _ (q : Formats) (order : IsStrictWeakOrder q.earlier) where
  abbrev Polled : PodcastSource → PodcastSource → Type 0
  Polled s s' = IsPolled q.earlier s s'

  kept : (s : PodcastSource) → IsKept q (Polled s)
  unfolding set_title set_description set_link set_image_url add_episode
  kept s = record {
    by_title = λ s' t h. record {
      valid = ground arith;
      polled = ground arith;
      interval = (ground (arith, h.interval), ground (arith, h.interval));
      same_id = ground arith;
      same_uri = ground arith;
    };
    by_description = λ s' t h. record {
      valid = ground arith;
      polled = ground arith;
      interval = (ground (arith, h.interval), ground (arith, h.interval));
      same_id = ground arith;
      same_uri = ground arith;
    };
    by_link = λ s' t h. record {
      valid = ground arith;
      polled = ground arith;
      interval = (ground (arith, h.interval), ground (arith, h.interval));
      same_id = ground arith;
      same_uri = ground arith;
    };
    by_image = λ files s' t h. record {
      valid = ground arith;
      polled = ground arith;
      interval = (ground (arith, h.interval), ground (arith, h.interval));
      same_id = ground arith;
      same_uri = ground arith;
    };
    by_episode = λ s' e h. record {
      valid = (add_episode-IsValid q.earlier order s' e h.valid).0;
      polled = ground arith;
      interval = (ground (arith, h.interval), ground (arith, h.interval));
      same_id = ground arith;
      same_uri = ground arith;
    };
  }

  cleared-IsPolled :
      (s s' : PodcastSource) (path : String)
      → Polled s s'
      → Polled s (record s' { episodes = []; image_file_path = path })
  cleared-IsPolled s s' path h = record {
    valid = record { sorted = tt; unique = tt; bounded = omega arith; allowed = h.valid.allowed };
    polled = h.polled;
    interval = h.interval;
    same_id = h.same_id;
    same_uri = h.same_uri;
  }

  purge-IsPolled : (s s' : PodcastSource) → Polled s s' → Polled s (Podcast.purge s').0
  unfolding Podcast.purge purge_episodes purge_icon_cache
  purge-IsPolled s s' h = elim (Bool-cases (str_eq s'.image_file_path "")) [
    | inl e ↦ rw (Podcast.purge, purge_icon_cache, e) (cleared-IsPolled s s' s'.image_file_path h)
    | inr e ↦ rw (Podcast.purge, purge_icon_cache, e) (cleared-IsPolled s s' "" h)
  ]

  data-IsPolled :
      (s s' : PodcastSource) (now : ℕ) (files : Files) (tokens : List Token)
      → Polled s s'
      → (u : PodcastSource × List Effect) × (data_available q now files s' tokens ≡ some u)
        × Polled s u.0
  unfolding data_available set_last_updated
  data-IsPolled s s' now files tokens h =
      let (u, e, end) = update_podcast-ends q (Polled s) (kept s) files now s' tokens h in
      elim end [
        | inl k ↦ ((u.0, map (λ e. of_source e) u.1), rw e refl, k)
        | inr (s'', k, moved) ↦ (
          (u.0, map (λ e. of_source e) u.1),
          rw e refl,
          rw moved (record {
            valid = ground arith;
            polled = k.polled;
            interval = k.interval;
            same_id = k.same_id;
            same_uri = k.same_uri;
          }),
        )
      ]

  runs :
      (s : PodcastSource) (i : ℤ)
      → s.updater ≡ some i
      → IsInterval i
      → task_timer s ≡ some (pos (1000 * pos_part i))
  unfolding task_timer
  runs s (pos n) e h = rw (task_timer, e, int32_fits (1000 * n) (omega (arith, h.1))) (ground arith)
  runs s (negsuc n) e h = absurd (omega (arith, h.0))

  polled-timer :
      (s s' : PodcastSource)
      → Polled s s'
      → (task_timer s' ≡ some (pos (1000 * pos_part s'.update_interval)))
        × (timeout s' ≡ fetch s.rss_feed_uri ∷ [])
  unfolding timeout start
  polled-timer s s' h =
      let timer = runs s' s'.update_interval h.polled h.interval in
      (timer, rw (timeout, timer, start, h.same_uri) refl)

  handle-IsPolled :
      (s s' : PodcastSource) (e : Event)
      → IsTimed e
      → Polled s s'
      → (u : PodcastSource × List Effect) × (handle q s' e ≡ some u) × Polled s u.0
  unfolding handle start refresh set_update_interval
  handle-IsPolled s s' Event.times_out fit h = ((s', timeout s'), refl, h)
  handle-IsPolled s s' Event.refreshes fit h = ((s', start s'), rw h.polled refl, h)
  handle-IsPolled s s' Event.purges fit h = (_, refl, purge-IsPolled s s' h)
  handle-IsPolled s s' (Event.arrives now files tokens) fit h =
      data-IsPolled s s' now files tokens h
  handle-IsPolled s s' (Event.sets_interval i) fit h = (
    (set_update_interval s' i, []),
    refl,
    record {
      valid = ground arith;
      polled = rw h.polled refl;
      interval = fit;
      same_id = h.same_id;
      same_uri = h.same_uri;
    },
  )

  run-IsPolled :
      (s s' : PodcastSource) (es : List Event)
      → All IsTimed es
      → Polled s s'
      → (u : PodcastSource × List Effect) × (run q s' es ≡ some u) × Polled s u.0
  unfolding run
  run-IsPolled s s' [] fit h = ((s', []), refl, h)
  run-IsPolled s s' (e ∷ es) fit h =
      let (u, first, k) = handle-IsPolled s s' e fit.0 h in
      let (v, rest, l) = run-IsPolled s u.0 es fit.1 k in
      ((v.0, u.1 ++ v.1), rw (run, first, rest) refl, l)

  -- From a new task for a valid source on, after any sequence of timeouts, refreshes, purges, replies of
  -- whatever documents, and changes of the interval, where the intervals are not negative and their
  -- milliseconds fit an int, no null pointer is used and every document is read to an end; the source
  -- stays valid, the timer of its task runs at the source's interval, and its next timeout, like a
  -- refresh, requests the source's feed.
  pub run_fetches :
      (s : PodcastSource) (es : List Event)
      → IsValid q.earlier s
      → IsInterval s.update_interval
      → All IsTimed es
      → (u : PodcastSource × List Effect) × (run q (new_task s).0 es ≡ some u)
        × IsPolled q.earlier s u.0
        × (task_timer u.0 ≡ some (pos (1000 * pos_part u.0.update_interval)))
        × (handle q u.0 Event.times_out ≡ some (u.0, fetch s.rss_feed_uri ∷ []))
        × (handle q u.0 Event.refreshes ≡ some (u.0, fetch s.rss_feed_uri ∷ []))
  unfolding new_task set_update_task handle start refresh
  run_fetches s es v fits fit =
      let (u, ends, k) = run-IsPolled s (new_task s).0 es fit (record {
        valid = ground arith;
        polled = refl;
        interval = fits;
        same_id = refl;
        same_uri = refl;
      }) in
      let (timer, next) = polled-timer s u.0 k in
      (u, ends, k, timer, rw (handle, next) refl, rw (handle, refresh, k.polled, k.same_uri) refl)
