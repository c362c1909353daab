-- ===== src/Rss/Valid.antt =====
-- What an RSS document cannot break in a podcast source.
use digital_rooster_gui.Base.{ℕ, ◌≡◌, refl, ◌⊎◌, inl, inr, Bool, List, some, arith}
use digital_rooster_gui.Base.Sorting.{IsStrictWeakOrder}
use digital_rooster_gui.Podcast.{
  PodcastSource, Effect, add_episode, set_title, set_description, set_link, set_last_updated,
}
use digital_rooster_gui.Podcast.Icon.{Files, set_image_url}
use digital_rooster_gui.Podcast.Unique.{IsValid, add_episode-IsValid}
use digital_rooster_gui.Rss.Tokens.{Token}
use digital_rooster_gui.Rss.{Formats, update_podcast}
use digital_rooster_gui.Rss.Ends.{IsKept}
use digital_rooster_gui.Rss.Loops.{update_podcast-ends}

-- The source is valid, and has the identity, the settings and the date of `s`.
pub record IsLike (earlier : ℕ → ℕ → Bool) (s s' : PodcastSource) : Type 0 where
  pub valid : IsValid earlier s'
  pub same_id : s'.id ≡ s.id
  pub same_uri : s'.rss_feed_uri ≡ s.rss_feed_uri
  pub same_max : s'.max_episodes ≡ s.max_episodes
  pub same_interval : s'.update_interval ≡ s.update_interval
  pub same_date : s'.last_updated ≡ s.last_updated

module _ (q : Formats) (order : IsStrictWeakOrder q.earlier) where
  kept : (s : PodcastSource) → IsKept q (IsLike q.earlier s)
  unfolding set_title set_description set_link set_image_url add_episode
  kept s = record {
    by_title = λ s' t h. ground arith;
    by_description = λ s' t h. ground arith;
    by_link = λ s' t h. ground arith;
    by_image = λ files s' t h. ground arith;
    by_episode = λ s' e h. record {
      valid = (add_episode-IsValid q.earlier order s' e h.valid).0;
      same_id = ground arith;
      same_uri = ground arith;
      same_max = ground arith;
      same_interval = ground arith;
      same_date = ground arith;
    };
  }

  -- Whatever the document, update_podcast ends, and a source whose episodes are sorted, unique and
  -- within a positive limit has that afterwards; its id, URI, limit and update interval are what
  -- they were, and its date is what it was or the current one.
  pub update_podcast-IsValid :
      (files : Files) (now : ℕ) (s : PodcastSource) (tokens : List Token)
      → IsValid q.earlier s
      → (u : PodcastSource × List Effect) × (update_podcast q files now s tokens ≡ some u)
        × IsValid q.earlier u.0
        × (u.0.id ≡ s.id)
        × (u.0.rss_feed_uri ≡ s.rss_feed_uri)
        × (u.0.max_episodes ≡ s.max_episodes)
        × (u.0.update_interval ≡ s.update_interval)
        × ((u.0.last_updated ≡ s.last_updated) ⊎ (u.0.last_updated ≡ now))
  unfolding set_last_updated
  update_podcast-IsValid files now s tokens v =
      let (u, e, end) =
        update_podcast-ends q (IsLike q.earlier s) (kept s) files now s tokens (record {
          valid = v;
          same_id = refl;
          same_uri = refl;
          same_max = refl;
          same_interval = refl;
          same_date = refl;
        }) in
      elim end [
        | inl k ↦
            (u, e, k.valid, k.same_id, k.same_uri, k.same_max, k.same_interval, inl k.same_date)
        | inr (s', k, moved) ↦ (
          u,
          e,
          rw moved (ground arith),
          ground arith,
          ground arith,
          ground arith,
          ground arith,
          inr (ground arith),
        )
      ]
