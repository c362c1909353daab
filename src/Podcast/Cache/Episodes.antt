-- ===== src/Podcast/Cache/Episodes.antt =====
-- The episodes that a cache file gives back.
use digital_rooster_gui.Base.{
  ℕ, suc, ◌*◌, ◌<◌, ◌^◌, ◌≡◌, refl, false, not, ◌&&◌, List, [], ◌∷◌, some, arith, length, leb, ◌==◌,
  All, eq_iff,
}
use digital_rooster_gui.Playable.{PodcastEpisode, get_guid}
use digital_rooster_gui.Podcast.Unique.{Unique}
use digital_rooster_gui.Podcast.Cache.{Dates}
use digital_rooster_gui.Podcast.Cache.Order.{Falls, IsNewer}

module _ (dates : Dates) where
  -- The episode that comes back, as number `i` of the cache file.
  abbrev pub restored : ℕ → PodcastEpisode → PodcastEpisode
  restored i e = record e {
    item = record e.item { id = dates.new_uuid i; display_name = e.title; seekable = false };
    guid = get_guid e;
    listened = not (e.duration == 0) && leb e.duration (25 * e.position);
  }

  abbrev pub all_restored : ℕ → List PodcastEpisode → List PodcastEpisode
  all_restored i [] = []
  all_restored i (e ∷ es) = restored i e ∷ all_restored (suc i) es

  -- The numbers fit an int, and the text of the date is read back.
  pub record IsStorable (e : PodcastEpisode) : Type 0 where
    pub duration : e.duration < 2 ^ 31
    pub position : e.position < 2 ^ 31
    pub date : dates.from_text (dates.to_text e.publication_date) ≡ some e.publication_date

  restored-guid : (i : ℕ) (e : PodcastEpisode) → get_guid (restored i e) ≡ get_guid e
  unfolding get_guid
  restored-guid i e = ground (arith, eq_iff e.guid "", eq_iff e.media_url "")

  All-restored :
      (P Q : PodcastEpisode → Type 0) (i : ℕ) (es : List PodcastEpisode)
      → ((j : ℕ) (e : PodcastEpisode) → P e → Q (restored j e))
      → All P es
      → All Q (all_restored i es)
  All-restored P Q i [] f h = tt
  All-restored P Q i (e ∷ es) f h = (f i e h.0, All-restored P Q (suc i) es f h.1)

  pub restored-Falls :
      (i : ℕ) (es : List PodcastEpisode)
      → Falls dates.earlier es
      → Falls dates.earlier (all_restored i es)
  restored-Falls i [] h = tt
  restored-Falls i (e ∷ es) h = (
    All-restored (IsNewer dates.earlier e) (IsNewer dates.earlier (restored i e)) (suc i) es
        (λ j x k. k) h.0,
    restored-Falls (suc i) es h.1,
  )

  pub restored-Unique : (i : ℕ) (es : List PodcastEpisode) → Unique es → Unique (all_restored i es)
  restored-Unique i [] h = tt
  restored-Unique i (e ∷ es) h = (
    All-restored _ _ (suc i) es (λ j x k. λ q. k (cc (q, restored-guid j x, restored-guid i e)))
        h.0,
    restored-Unique (suc i) es h.1,
  )

  pub length-all_restored :
      (i : ℕ) (es : List PodcastEpisode) → length (all_restored i es) ≡ length es
  length-all_restored i [] = refl
  length-all_restored i (e ∷ es) = omega (arith, length-all_restored (suc i) es)
