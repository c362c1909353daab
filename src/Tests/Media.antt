-- ===== src/Tests/Media.antt =====
-- The player, the icon, the cache file, the stored form of items, and the scan results.
use digital_rooster_gui.Base.{
  ℕ, ◌≡◌, refl, String, true, false, List, [], ◌∷◌, Option, some, none, arith, ltb,
}
use digital_rooster_gui.Base.Int.{ℤ, pos}
use digital_rooster_gui.Playable.{PodcastEpisode}
use digital_rooster_gui.Podcast.Icon.{Files}
use digital_rooster_gui.Podcast.Restore.{read_episodes_cache, read_episodes_cache-IsValid}
use digital_rooster_gui.Podcast.Unique.{IsValid}
use digital_rooster_gui.Player.{
  Player, Effect, episode, media_changed, seekable_changed, backend_position, on_media_changed,
  on_seekable_changed, set_media,
}
use digital_rooster_gui.Player.Session.{
  Backend, Event as PlayerEvent, calls, reports, sets_media, plays, position_changed,
  seekable_changed as seekable_reported, run,
}
use digital_rooster_gui.Player.Session.Safety.{run_keeps}
use digital_rooster_gui.Player.Positions.{positions, set_media_resumes}
use digital_rooster_gui.Wifi.{WifiNetwork, WifiControl, Event, idle, parse_scanresult}
use digital_rooster_gui.Wifi.Socket.{heard, ctrl_event, ctrl_event-heard}
use digital_rooster_gui.Wifi.Table.{Reads, parse_scanresult-Reads}
use digital_rooster_gui.Tests.Instances.{whole, ltb-IsStrictWeakOrder}
use digital_rooster_gui.Tests.Playing.{stream, first, second, feed, feed-IsValid}

abbrev halfway : PodcastEpisode
halfway = record first { item = record stream { position = 50 } }

abbrev playing_now : Player ℕ
playing_now = record {
  items = λ p. episode halfway;
  current_item = some 0;
  position_updateable = true;
  linear_volume = 30;
}

set_media_resumes_example :
    let p : Player ℕ = record playing_now { position_updateable = false } in
    (p₁ p₂ : Player ℕ) × (on_media_changed (set_media p 1).0 ≡ some (p₁, media_changed ∷ []))
    × (on_seekable_changed (positions p₁ (pos 0 ∷ [])) true
        ≡ some (p₂, seekable_changed true ∷ backend_position (pos 50) ∷ []))
    × (p₂.position_updateable ≡ true)
set_media_resumes_example =
    set_media_resumes (record playing_now { position_updateable = false }) 1 (pos 0 ∷ []) refl

read_episodes_cache-IsValid_example :
    IsValid ltb (read_episodes_cache ltb feed (halfway ∷ second ∷ [])).0
read_episodes_cache-IsValid_example =
    read_episodes_cache-IsValid ltb feed (halfway ∷ second ∷ []) ltb-IsStrictWeakOrder feed-IsValid

abbrev five_fields : String → List String
five_fields s = s ∷ "2412" ∷ "-50" ∷ "[WPA2]" ∷ "home" ∷ []

abbrev minus_fifty : String → ℤ
minus_fifty s = pos 50

abbrev table : List String
table = "header" ∷ "00:11" ∷ "22:33" ∷ "" ∷ []

parse_scanresult-Reads_example :
    (ns : List WifiNetwork) × (parse_scanresult five_fields minus_fifty table ≡ some ns)
    × Reads five_fields minus_fifty ("00:11" ∷ "22:33" ∷ []) ns
parse_scanresult-Reads_example =
    parse_scanresult-Reads five_fields minus_fifty table (omega arith, (omega arith, tt))

abbrev quiet : WifiControl
quiet = record { scan_stat = idle; scan_results = [] }

abbrev messages : List (Event × Option (List WifiNetwork))
messages =
    (record { has_scan_results = false; has_scan_started = true; has_scan_failed = false }, none)
    ∷ (
      record { has_scan_results = true; has_scan_started = false; has_scan_failed = false },
      some [],
    )
    ∷ []

ctrl_event-heard_example : heard quiet (ctrl_event quiet messages).1 ≡ (ctrl_event quiet messages).0
ctrl_event-heard_example = ctrl_event-heard quiet messages

abbrev no_files : Files
no_files q = false

abbrev loading : Backend
loading = record {
  position = pos 0;
  duration = pos 100;
  is_seekable = false;
  is_muted = false;
  media_status = 2;
  state = 1;
  error = 0;
}

-- Another item is set and played, found to be seekable, and plays.
abbrev session : List (PlayerEvent ℕ)
session =
    calls loading (sets_media 2)
    ∷ calls loading plays
    ∷ reports (seekable_reported true)
    ∷ reports (position_changed (pos 70))
    ∷ []

run_keeps_example :
    (s : Player ℕ × List (Effect ℕ)) × (run whole (λ v. v) playing_now session ≡ some s)
    × (d : ℕ) × (s.0.current_item ≡ some d)
    × (s.0.items 1 ≡ episode halfway)
run_keeps_example =
    run_keeps whole (λ v. v) 1 0 playing_now session ((λ h. omega (arith, h)), (tt, (tt, (tt, tt))))
      refl (λ h. omega (arith, h))
