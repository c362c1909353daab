-- ===== src/Models/Safety.antt =====
-- The requests for a field, for any row that a view asks for.
use digital_rooster_gui.Base.{String, List, [], none, some}
use digital_rooster_gui.Base.Int.{ℤ}
use digital_rooster_gui.Playable.{PodcastEpisode}
use digital_rooster_gui.Wifi.{WifiNetwork}
use digital_rooster_gui.Configuration.{Configuration}
use digital_rooster_gui.Podcast.Icon.{Files}
use digital_rooster_gui.Models.Rows.{Shows, guarded-Shows}
use digital_rooster_gui.Models.Alarms
use digital_rooster_gui.Models.Stations
use digital_rooster_gui.Models.Podcasts
use digital_rooster_gui.Models.Episodes
use digital_rooster_gui.Models.Networks

-- No list model lets std::out_of_range out of `data`: in a row of its list it answers with the
-- field of that row's element, and in any other row with an invalid variant and no effect.
pub data-Shows :
    {D : Type 0} (c : Configuration D) (episodes : List PodcastEpisode)
    (networks : List WifiNetwork) (files : Files) (without_tags : String → String)
    (t : Episodes.Texts) (row : ℤ) (r₁ : Alarms.Role) (r₂ : Stations.Role) (r₃ : Podcasts.Role)
    (r₄ : Episodes.Role) (r₅ : Networks.Role)
    → Shows c.alarms row none (Alarms.field r₁) (Alarms.data_of c row r₁)
      × Shows c.stream_sources row none
          (Stations.field r₂)
          (Stations.data_of c.stream_sources row r₂)
      × Shows c.podcast_sources row
          (none, [])
          (Podcasts.field files without_tags r₃)
          (Podcasts.data_of files without_tags c row r₃)
      × Shows episodes row none (Episodes.field t r₄) (Episodes.data_of t (some episodes) row r₄)
      × Shows networks row none (Networks.field r₅) (Networks.data_of networks row r₅)
unfolding Alarms.data_of Stations.data_of Podcasts.data_of Episodes.data_of Networks.data_of
data-Shows c episodes networks files without_tags t row r₁ r₂ r₃ r₄ r₅ = (
  guarded-Shows c.alarms row none (Alarms.field r₁),
  guarded-Shows c.stream_sources row none (Stations.field r₂),
  guarded-Shows c.podcast_sources row (none, []) (Podcasts.field files without_tags r₃),
  guarded-Shows episodes row none (Episodes.field t r₄),
  guarded-Shows networks row none (Networks.field r₅),
)
