-- ===== src/Tests/Playing.antt =====
-- Episodes, podcast sources, the alarm monitor and the sleep timer.
use digital_rooster_gui.Base.{◌≡◌, ◌≢◌, ◌⊎◌, true, false, List, [], ◌∷◌, some, none, arith, ltb}
use digital_rooster_gui.Base.Int.{pos}
use digital_rooster_gui.Playable.{PlayableItem, PodcastEpisode, get_guid}
use digital_rooster_gui.Podcast.{PodcastSource, add_episode, get_episode_by_id}
use digital_rooster_gui.Podcast.Newest.{IsNewest}
use digital_rooster_gui.Podcast.Unique.{IsValid, Differs, add_episode-IsValid}
use digital_rooster_gui.Monitor.{
  AlarmMonitor, idle, armed, fall_back_mode, player_error, set_volume, set_playlist, play,
  default_fallback_volume,
}
use digital_rooster_gui.Monitor
use digital_rooster_gui.Monitor.Fallback
use digital_rooster_gui.Monitor.Fallback.{player_error_reached}
use digital_rooster_gui.Tests.Instances.{ltb-IsStrictWeakOrder}
use digital_rooster_gui.Tests.Alarms.{work}

abbrev pub stream : PlayableItem
stream = record {
  id = 1;
  display_name = "";
  title = "One";
  publisher = "";
  media_url = "http://a/1";
  position = 0;
  seekable = true;
}

abbrev pub first : PodcastEpisode
first = record {
  item = stream;
  description = "";
  guid = "1";
  publication_date = 10;
  duration = 100;
  listened = false;
}

abbrev pub second : PodcastEpisode
second = record first { guid = "2"; publication_date = 20 }

abbrev pub feed : PodcastSource
feed = record {
  id = 7;
  rss_feed_uri = "http://a";
  title = "";
  description = "";
  episodes = first ∷ [];
  last_updated = 0;
  link = "";
  icon_url = "";
  image_file_path = "";
  max_episodes = 1;
  update_interval = pos 3600;
  updater = none;
  serializer = false;
}

pub feed-IsValid : IsValid ltb feed
feed-IsValid = record {
  sorted = (tt, tt);
  unique = (tt, tt);
  bounded = omega arith;
  allowed = omega arith;
}

add_episode-IsValid_example :
    IsValid ltb (add_episode ltb feed second).0
    × (((x : PodcastEpisode) × (get_episode_by_id feed (get_guid second) ≡ some x)
          × (add_episode ltb feed second ≡ (feed, [])))
        ⊎ ((dropped : List PodcastEpisode) × Differs (get_guid second) (first ∷ [])
            × IsNewest ltb 1
                (second ∷ first ∷ [])
                (add_episode ltb feed second).0.episodes
                dropped))
add_episode-IsValid_example = add_episode-IsValid ltb ltb-IsStrictWeakOrder feed second feed-IsValid

-- A monitor whose alarm has just started.
abbrev ringing : AlarmMonitor
ringing = (Monitor.alarm_triggered Monitor.init work).0

ringing-Reach : Fallback.Reach ringing
ringing-Reach = Fallback.next Fallback.start (Fallback.triggers Monitor.init work)

player_error_reached_example :
    ((ringing.state ≡ idle) × (player_error ringing true ≡ (ringing, [])))
    ⊎ ((ringing.state ≢ idle)
        × ((player_error ringing true).0.state ≡ fall_back_mode)
        × ((player_error ringing true).1
            ≡ set_volume default_fallback_volume ∷ set_playlist 0 ∷ play ∷ []))
player_error_reached_example = player_error_reached ringing-Reach
