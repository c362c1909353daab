-- ===== src/Tests/Settings.antt =====
-- The configuration and its stores.
use digital_rooster_gui.Base.{ℕ, true, false, [], ◌∷◌}
use digital_rooster_gui.Base.Int.{pos}
use digital_rooster_gui.Alarm.{Alarm, daily}
use digital_rooster_gui.Configuration.{Configuration, Settings}
use digital_rooster_gui.Tests.Alarms.{work}

abbrev pub stored : Settings ℕ
stored = record {
  alarms = work ∷ [];
  stream_sources = [];
  podcast_sources = [];
  global_alarm_timeout = pos 30;
  sleep_timeout = pos 60;
  volume = 30;
  brightness_sb = pos 5;
  brightness_act = pos 60;
  backlight_control_act = false;
  weather_cfg = record { api_token = "key"; location_id = "3452925"; update_interval = pos 3600 };
  wpa_socket_name = "/run/wpa";
  net_dev_name = "wlan0";
}

abbrev pub loaded : Configuration ℕ
loaded = record { settings = stored; dirty = false }

abbrev pub extra : Alarm
extra = record {
  id = 4;
  media_url = "http://b";
  period = daily;
  alarm_time = 36000000;
  enabled = true;
  timeout = pos 30;
  volume = pos 10;
}
