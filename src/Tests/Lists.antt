-- ===== src/Tests/Lists.antt =====
-- The list models of the user interface.
use digital_rooster_gui.Base.{ℕ, suc, ◌≡◌, refl, [], ◌∷◌, some, none, arith}
use digital_rooster_gui.Base.Int.{pos, negsuc}
use digital_rooster_gui.Configuration.{Configuration, Signal}
use digital_rooster_gui.Models.Alarms
use digital_rooster_gui.Models.Alarms.Deleting.{delete_alarm-row}
use digital_rooster_gui.Models.Podcasts
use digital_rooster_gui.Models.Podcasts.Rows.{remove-row}
use digital_rooster_gui.Models.Stations.{get_station_url}
use digital_rooster_gui.Models.Rows.{at}
use digital_rooster_gui.Tests.Alarms.{work}
use digital_rooster_gui.Tests.Settings.{loaded, extra}
use digital_rooster_gui.Tests.Restarts.{radio, podcast}

abbrev two_alarms : Configuration ℕ
two_alarms = record loaded {
  settings = record loaded.settings {
    alarms = work ∷ extra ∷ [];
    podcast_sources = podcast ∷ record podcast { id = 9 } ∷ [];
  };
}

delete_alarm-row_example :
    let (c', signals, notices) = Alarms.delete_alarm two_alarms (pos 1) in
    (c'.alarms ≡ work ∷ [])
    × (signals ≡ Signal.alarms_changed ∷ [])
    × (notices ≡ Alarms.Notice.begin_remove_rows (pos 1) ∷ Alarms.Notice.end_remove_rows ∷ [])
delete_alarm-row_example =
    delete_alarm-row two_alarms 1 extra (((λ e. absurd (ground arith)), tt), (tt, tt)) refl

remove-row_example :
    (c' : Configuration ℕ) × (Podcasts.remove two_alarms (pos 0)
      ≡ some (
        c',
        Signal.podcast_sources_changed ∷ [],
        Podcasts.Notice.begin_remove_rows (pos 0) ∷ Podcasts.Notice.end_remove_rows ∷ [],
      ))
    × (suc (Podcasts.row_count c') ≡ 2)
    × (Podcasts.get_podcast_source_by_index c' (pos 0) ≡ some (record podcast { id = 9 }))
unfolding Podcasts.row_count Podcasts.get_podcast_source_by_index at
remove-row_example = remove-row two_alarms 0 0 (omega arith)

-- A row outside the list.
no_station : get_station_url (radio ∷ []) (negsuc 0) ≡ none
unfolding get_station_url at
no_station = refl

no_alarm : (Alarms.delete_alarm two_alarms (pos 2)).0 ≡ two_alarms
unfolding Alarms.delete_alarm at
no_alarm = refl
