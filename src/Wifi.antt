-- ===== src/Wifi.antt =====
-- libsrc/wifi_control.cpp: the scan state and the table of the scan results. The socket is that of
-- wpa_ctrl. QStringRef::split and toInt are Qt's, so the fields of a line are a parameter, as is the
-- number of a text; `none` is an access past the end of a list.
pub mod Table
pub mod Socket
pub mod Reply
use digital_rooster_gui.Base.{
  ℕ, ◌-◌, String, Bool, true, false, List, [], ◌∷◌, ◌++◌, Option, none, some, length, get_elem?,
  take, drop, ltb, if◌then◌else◌,
}
use digital_rooster_gui.Base.Int.{ℤ, pos}

pub record WifiNetwork : Type 0 where
  pub name : String
  pub bssid : String
  pub signal_strength : ℤ
  pub connected : Bool
  pub wps_available : Bool

pub data ScanStatus : Type 0 where
  idle scanning scan_failed scan_ok : ScanStatus

pub data Signal : Type 0 where
  scan_status_changed : ScanStatus → Signal
  networks_found : List WifiNetwork → Signal

pub record WifiControl : Type 0 where
  pub scan_stat : ScanStatus
  pub scan_results : List WifiNetwork

pub data Parsed : Type 0 where
  network : WifiNetwork → Parsed
  parse_error : Parsed

infixl 5 ◌>>=◌
abbrev ◌>>=◌ : {A B : Type 0} → Option A → (A → Option B) → Option B
none >>= f = none
some a >>= f = f a

module _ (fields : String → List String) (to_int : String → ℤ) where
  read_network : List String → Option Parsed
  read_network list = do
    name ← get_elem? list 4
    bssid ← get_elem? list 0
    level ← get_elem? list 2
    some (
        network (record {
          name = name;
          bssid = bssid;
          signal_strength = to_int level;
          connected = false;
          wps_available = false;
        }))

  unfoldable pub interpret : List String → Option Parsed
  unfolding read_network
  interpret list = if ltb 3 (length list) then read_network list else some parse_error

  unfoldable pub line_to_network : String → Option Parsed
  line_to_network line = interpret (fields line)

  keep : Parsed → List WifiNetwork → List WifiNetwork
  keep (network n) cont = n ∷ cont
  keep parse_error cont = cont

  -- The loop; a line that does not parse is logged and left out.
  unfoldable pub parse_lines : List String → Option (List WifiNetwork)
  unfolding keep
  parse_lines [] = some []
  parse_lines (line ∷ lines) = do
    parsed ← line_to_network line
    cont ← parse_lines lines
    some (keep parsed cont)

  -- All lines but the first, the header, and the last.
  abbrev pub rows : List String → List String
  rows lines = take (length lines - 2) (drop 1 lines)

  unfoldable pub parse_scanresult : List String → Option (List WifiNetwork)
  parse_scanresult lines = parse_lines (rows lines)

-- What the text of an event contains.
pub record Event : Type 0 where
  pub has_scan_results : Bool
  pub has_scan_started : Bool
  pub has_scan_failed : Bool

unfoldable pub set_scan_status : WifiControl → ScanStatus → WifiControl × List Signal
set_scan_status w stat = (record w { scan_stat = stat }, scan_status_changed stat ∷ [])

when_set : Bool → ScanStatus → WifiControl → WifiControl × List Signal
when_set true stat w = set_scan_status w stat
when_set false stat w = (w, [])

-- read_scan_results: `answer` is the parsed reply, or `none` if the request failed.
read_scan_results : WifiControl → Option (List WifiNetwork) → WifiControl
read_scan_results w none = w
read_scan_results w (some results) = record w { scan_results = results }

handle_results : Bool → WifiControl → Option (List WifiNetwork) → WifiControl × List Signal
handle_results false w answer = (w, [])
handle_results true w answer =
    let (w₁, first) = set_scan_status w scan_ok in
    let w₂ = read_scan_results w₁ answer in (w₂, first ++ networks_found w₂.scan_results ∷ [])

unfoldable pub parse_event :
    WifiControl → Event → Option (List WifiNetwork) → WifiControl × List Signal
unfolding handle_results when_set set_scan_status read_scan_results
parse_event w e answer =
    let (w₁, first) = handle_results e.has_scan_results w answer in
    let (w₂, second) = when_set e.has_scan_started scanning w₁ in
    let (w₃, third) = when_set e.has_scan_failed scan_failed w₂ in (w₃, first ++ second ++ third)
