-- ===== src/Power.antt =====
-- include/powercontrol.hpp and libsrc/powercontrol.cpp. A slot returns the new state and the
-- signals that it emits, in order.
pub mod Signals
use digital_rooster_gui.Base.{Bool, true, false, List, [], ◌∷◌, ◌++◌}

pub data PowerState : Type 0 where
  active standby : PowerState

pub data Signal : Type 0 where
  power_state_changed : PowerState → Signal
  becoming_active going_in_standby shutdown_request reboot_request : Signal
  active_changed : Bool → Signal

abbrev pub init : PowerState
init = PowerState.standby

unfoldable pub power_off : PowerState → PowerState × List Signal
power_off s = (s, shutdown_request ∷ [])

unfoldable pub reboot : PowerState → PowerState × List Signal
reboot s = (s, reboot_request ∷ [])

unfoldable pub toggle_power_state : PowerState → PowerState × List Signal
toggle_power_state active = (
  PowerState.standby,
  going_in_standby ∷ active_changed false ∷ power_state_changed PowerState.standby ∷ [],
)
toggle_power_state standby =
    (active, becoming_active ∷ active_changed true ∷ power_state_changed active ∷ [])

unfoldable pub go_standby : PowerState → PowerState × List Signal
go_standby active = (
  PowerState.standby,
  power_state_changed PowerState.standby ∷ going_in_standby ∷ active_changed false ∷ [],
)
go_standby standby = (PowerState.standby, going_in_standby ∷ active_changed false ∷ [])

unfoldable pub activate : PowerState → PowerState × List Signal
activate standby = (active, power_state_changed active ∷ becoming_active ∷ active_changed true ∷ [])
activate active = (active, becoming_active ∷ active_changed true ∷ [])

pub data Call : Type 0 where
  toggles standbys activates power_offs reboots : Call

unfoldable pub step : PowerState → Call → PowerState × List Signal
unfolding toggle_power_state go_standby activate power_off reboot
step s toggles = toggle_power_state s
step s standbys = go_standby s
step s activates = activate s
step s power_offs = power_off s
step s reboots = reboot s

unfoldable pub run : PowerState → List Call → PowerState × List Signal
run s [] = (s, [])
run s (c ∷ cs) = let (s', first) = step s c in let (s'', rest) = run s' cs in (s'', first ++ rest)
