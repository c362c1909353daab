-- ===== src/Wifi/Socket.antt =====
-- The connection of libsrc/wifi_control.cpp to wpa_supplicant: the socket, the requests, and the
-- loop over the pending messages. wpa_ctrl is a library: whether it opens the socket, which messages
-- are pending, and what it answers to a request are given.
use digital_rooster_gui.Base.{
  ◌≡◌, refl, ap, ◌∙◌, String, Bool, true, false, not, List, [], ◌∷◌, ◌++◌, Option, none, some,
  append, if◌then◌else◌,
}
use digital_rooster_gui.Wifi.{
  WifiControl, WifiNetwork, ScanStatus, Signal, Event, parse_event, set_scan_status, handle_results,
  when_set, read_scan_results, scan_status_changed, networks_found, scanning, scan_failed,
}

pub record Connection : Type 0 where
  pub ctrl : Bool
  pub notifier : Bool
  pub wpa_supplicant_sock_path : String

-- The exception of a socket that cannot be opened is caught; the failure to attach is logged.
opened : Bool → Connection → Connection
opened true c = record c { ctrl = true; notifier = true }
opened false c = c

-- WifiControl::get_instance with the socket name of the configuration, if one is given.
unfoldable pub get_instance : Bool → Connection → Option String → Connection
unfolding opened
get_instance opens c none = c
get_instance opens c (some name) =
    if not c.ctrl then opened opens (record c { wpa_supplicant_sock_path = name }) else c

-- What is sent; `none` is the assertion on the socket that fails.
unfoldable pub request_wrapper : Connection → String → Option String
request_wrapper c cmd = if c.ctrl then some cmd else none

unfoldable pub start_scan : Connection → Option String
start_scan c = request_wrapper c "SCAN"

abbrev pub wps_command : WifiNetwork → String
wps_command network = append "WPS_PBC " network.bssid

unfoldable pub wps_pbc_auth : Connection → WifiNetwork → Option String
wps_pbc_auth c network = request_wrapper c (wps_command network)

-- WifiControl::ctrl_event: the messages that are pending, each with the answer to the request for
-- the scan results, should it be sent.
unfoldable pub ctrl_event :
    WifiControl → List (Event × Option (List WifiNetwork)) → WifiControl × List Signal
ctrl_event w [] = (w, [])
ctrl_event w ((e, answer) ∷ es) =
    let (w₁, first) = parse_event w e answer in
    let (w₂, rest) = ctrl_event w₁ es in (w₂, first ++ rest)

-- What a listener knows that was told of the status and the networks.
abbrev pub heard : WifiControl → List Signal → WifiControl
heard k [] = k
heard k (scan_status_changed stat ∷ ss) = heard (record k { scan_stat = stat }) ss
heard k (networks_found networks ∷ ss) = heard (record k { scan_results = networks }) ss

heard-append : (k : WifiControl) (ss us : List Signal) → heard k (ss ++ us) ≡ heard (heard k ss) us
heard-append k [] us = refl
heard-append k (scan_status_changed stat ∷ ss) us =
    heard-append (record k { scan_stat = stat }) ss us
heard-append k (networks_found ns ∷ ss) us = heard-append (record k { scan_results = ns }) ss us

handle_results-heard :
    (b : Bool) (w : WifiControl) (answer : Option (List WifiNetwork))
    → heard w (handle_results b w answer).1 ≡ (handle_results b w answer).0
unfolding handle_results read_scan_results set_scan_status
handle_results-heard false w answer = refl
handle_results-heard true w none = refl
handle_results-heard true w (some results) = refl

when_set-heard :
    (b : Bool) (stat : ScanStatus) (w : WifiControl)
    → heard w (when_set b stat w).1 ≡ (when_set b stat w).0
unfolding when_set set_scan_status
when_set-heard true stat w = refl
when_set-heard false stat w = refl

parse_event-heard :
    (w : WifiControl) (e : Event) (answer : Option (List WifiNetwork))
    → heard w (parse_event w e answer).1 ≡ (parse_event w e answer).0
unfolding parse_event
parse_event-heard w e answer =
    let (w₁, first) = handle_results e.has_scan_results w answer in
    let (w₂, second) = when_set e.has_scan_started scanning w₁ in
    let (w₃, third) = when_set e.has_scan_failed scan_failed w₂ in
    heard-append w (first ++ second) third
    ∙ ap (λ k. heard k third)
        (heard-append w first second
          ∙ ap (λ k. heard k second) (handle_results-heard e.has_scan_results w answer)
          ∙ when_set-heard e.has_scan_started scanning w₁)
    ∙ when_set-heard e.has_scan_failed scan_failed w₂

-- A listener that knows the status and the networks, and is told of every change, knows them after
-- any sequence of messages.
pub ctrl_event-heard :
    (w : WifiControl) (es : List (Event × Option (List WifiNetwork)))
    → heard w (ctrl_event w es).1 ≡ (ctrl_event w es).0
unfolding ctrl_event
ctrl_event-heard w [] = refl
ctrl_event-heard w ((e, answer) ∷ es) =
    let (w₁, first) = parse_event w e answer in
    rw (heard-append w first (ctrl_event w₁ es).1, parse_event-heard w e answer)
      (ctrl_event-heard w₁ es)
