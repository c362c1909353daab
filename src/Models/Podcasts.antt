-- ===== src/Models/Podcasts.antt =====
-- qtgui/podcastsourcemodel.cpp, and the methods of libsrc/configuration.cpp that it calls with an
-- index. The removal of HTML tags is QRegExp's, the parameter `without_tags`.
pub mod Rows
use digital_rooster_gui.Base.{
  ℕ, zero, suc, ◌-◌, String, Bool, true, List, [], ◌∷◌, ◌++◌, Option, none, some, length, take,
  drop, if◌then◌else◌,
}
use digital_rooster_gui.Base.Int.{ℤ, pos, negsuc, ◌-ℤ◌}
use digital_rooster_gui.Playable.{PodcastEpisode}
use digital_rooster_gui.Podcast
use digital_rooster_gui.Podcast.{PodcastSource, Effect}
use digital_rooster_gui.Podcast.Icon.{Files, get_icon}
use digital_rooster_gui.Configuration.{Configuration, Signal}
use digital_rooster_gui.Models.Rows.{check_selection, at, guarded}

pub data Role : Type 0 where
  display_name_role display_url_role display_count_role description_role image_role : Role
  other_role : Role

pub data Variant : Type 0 where
  a_text : String → Variant
  a_number : ℤ → Variant

pub data Notice : Type 0 where
  data_changed : ℤ → ℤ → Notice
  begin_remove_rows : ℤ → Notice
  end_remove_rows : Notice

-- The request for an image may start a download.
abbrev pub field : Files → (String → String) → Role → PodcastSource → Option Variant × List Effect
field files without_tags display_name_role s = (some (a_text s.title), [])
field files without_tags display_url_role s = (some (a_text s.rss_feed_uri), [])
field files without_tags display_count_role s = (some (a_number (pos (length s.episodes))), [])
field files without_tags description_role s = (some (a_text (without_tags s.description)), [])
field files without_tags image_role s =
    let (icon, effects) = get_icon files s in (some (a_text icon), effects)
field files without_tags other_role s = (none, [])

-- The source in a row, which the store shares.
change_row : List PodcastSource → ℕ → PodcastSource → List PodcastSource
change_row [] i s' = []
change_row (s ∷ ss) zero s' = s' ∷ ss
change_row (s ∷ ss) (suc i) s' = s ∷ change_row ss i s'

module _ {D : Type 0} where
  -- Configuration::get_podcast_source_by_index; `none` is std::out_of_range.
  unfoldable pub get_podcast_source_by_index : Configuration D → ℤ → Option PodcastSource
  get_podcast_source_by_index c index = at c.podcast_sources index

  erased : Configuration D → ℤ → Configuration D
  erased c (negsuc n) = c
  erased c (pos n) = record c {
    settings = record c.settings {
      podcast_sources = take n c.podcast_sources ++ drop (suc n) c.podcast_sources;
    };
    dirty = true;
  }

  -- Configuration::remove_podcast_source_by_index; `none` is the assertion that fails.
  unfoldable pub remove_podcast_source_by_index :
      Configuration D → ℤ → Option (Configuration D × List Signal)
  unfolding erased
  remove_podcast_source_by_index c index =
      if check_selection c.podcast_sources index
      then some (erased c index, Signal.podcast_sources_changed ∷ [])
      else none

  unfoldable pub row_count : Configuration D → ℕ
  row_count c = length c.podcast_sources

  unfoldable pub new_data_available : Configuration D → List Notice
  new_data_available c = data_changed (pos zero) (pos (row_count c) -ℤ pos 1) ∷ []

  -- The episodes of the new PodcastEpisodeModel; the inner `none` is the null pointer, the outer an
  -- exception.
  unfoldable pub get_episodes : Configuration D → ℤ → Option (Option (List PodcastEpisode))
  get_episodes c index = guarded c.podcast_sources index none (λ s. some s.episodes)

  unfoldable pub data_of :
      Files → (String → String) → Configuration D → ℤ → Role → Option (Option Variant × List Effect)
  data_of files without_tags c row role =
      guarded c.podcast_sources row (none, []) (field files without_tags role)

  purged : Configuration D → ℤ → Option PodcastSource → Configuration D × List Effect
  purged c index none = (c, [])
  purged c (negsuc n) (some s) = (c, [])
  purged c (pos n) (some s) =
      let (s', effects) = Podcast.purge s in
      (
        record c {
          settings = record c.settings { podcast_sources = change_row c.podcast_sources n s' };
        },
        effects,
      )

  -- std::out_of_range is caught.
  unfoldable pub purge : Configuration D → ℤ → Configuration D × List Effect
  unfolding purged change_row
  purge c index = purged c index (get_podcast_source_by_index c index)

  -- `none` is the assertion that fails: the handler is for an exception.
  unfoldable pub remove : Configuration D → ℤ → Option (Configuration D × List Signal × List Notice)
  remove c index = elim (remove_podcast_source_by_index c index) [
    | none ↦ none
    | some (c', signals) ↦ some (c', signals, begin_remove_rows index ∷ end_remove_rows ∷ [])
  ]
