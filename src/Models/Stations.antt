-- ===== src/Models/Stations.antt =====
-- qtgui/iradiolistmodel.cpp. The player knows an item by its pointer, so the model has the pointers
-- of the configuration's stations; the items are those of the player's heap.
use digital_rooster_gui.Base.{ℕ, String, List, ◌++◌, Option, none, some, length}
use digital_rooster_gui.Base.Int.{ℤ}
use digital_rooster_gui.Playable.{PlayableItem}
use digital_rooster_gui.Player
use digital_rooster_gui.Player.{Player, Item, Effect}
use digital_rooster_gui.Models.Rows.{at, guarded}

pub data Role : Type 0 where
  station_name_role uri_role other_role : Role

abbrev pub field : Role → PlayableItem → Option String
field station_name_role i = some i.display_name
field uri_role i = some i.media_url
field other_role i = none

unfoldable pub row_count : List PlayableItem → ℕ
row_count stations = length stations

-- The outer `none` is an exception.
unfoldable pub data_of : List PlayableItem → ℤ → Role → Option (Option String)
data_of stations row role = guarded stations row none (field role)

-- `none` is std::out_of_range.
unfoldable pub get_station_url : List PlayableItem → ℤ → Option String
get_station_url stations index = elim (at stations index) [
  | none ↦ none
  | some i ↦ some i.media_url
]

module _ {D : Type 0} where
  sent : Player D → Option ℕ → Option (Player D × List (Effect D))
  sent p none = none
  sent p (some station) =
      let (p', effects) = Player.set_media p station in some (p', effects ++ Player.play p')

  -- `none` is std::out_of_range, before the player is called.
  unfoldable pub send_to_player : Player D → List ℕ → ℤ → Option (Player D × List (Effect D))
  unfolding sent
  send_to_player p stations index = sent p (at stations index)
