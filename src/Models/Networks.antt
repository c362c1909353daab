-- ===== src/Models/Networks.antt =====
-- qtgui/wifilistmodel.cpp. What WifiControl::wps_pbc_auth does with the chosen network is a request
-- to wpa_supplicant.
use digital_rooster_gui.Base.{ℕ, String, Bool, List, [], ◌∷◌, Option, none, some, length}
use digital_rooster_gui.Base.Int.{ℤ}
use digital_rooster_gui.Wifi.{WifiNetwork}
use digital_rooster_gui.Wifi.Socket.{wps_command}
use digital_rooster_gui.Models.Rows.{guarded}

pub data Role : Type 0 where
  bssid_role name_role wps_role signal_strength_role connected_role other_role : Role

pub data Variant : Type 0 where
  a_text : String → Variant
  a_flag : Bool → Variant
  a_number : ℤ → Variant

pub data Notice : Type 0 where
  begin_reset_model end_reset_model : Notice

abbrev pub field : Role → WifiNetwork → Option Variant
field bssid_role n = some (a_text n.bssid)
field name_role n = some (a_text n.name)
field wps_role n = some (a_flag n.wps_available)
field signal_strength_role n = some (a_number n.signal_strength)
field connected_role n = some (a_flag n.connected)
field other_role n = none

unfoldable pub row_count : List WifiNetwork → ℕ
row_count scan_results = length scan_results

-- The outer `none` is an exception.
unfoldable pub data_of : List WifiNetwork → ℤ → Role → Option (Option Variant)
data_of scan_results row role = guarded scan_results row none (field role)

-- The requests that WifiControl::wps_pbc_auth is called for; `none` is an exception.
unfoldable pub wps_connect : List WifiNetwork → ℤ → Option (List String)
wps_connect scan_results index = guarded scan_results index [] (λ n. wps_command n ∷ [])

unfoldable pub update_scan_results :
    List WifiNetwork → List WifiNetwork → List WifiNetwork × List Notice
update_scan_results scan_results results = (results, begin_reset_model ∷ end_reset_model ∷ [])
