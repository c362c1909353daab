-- ===== src/VolumeButton.antt =====
-- libsrc/volume_button.cpp. The flag is the state; a slot returns what it emits.
pub mod Events
use digital_rooster_gui.Base.{
  ℕ, Bool, true, false, not, ◌||◌, List, [], ◌∷◌, ◌++◌, ◌==◌, if◌then◌else◌,
}
use digital_rooster_gui.Base.Int.{ℤ, pos, negsuc}

pub record InputEvent : Type 0 where
  pub code : ℕ
  pub value : ℤ
  pub type : ℕ

-- An increment is counted in units of VOLUME_INCREMENT, which is half a per cent.
pub data Signal : Type 0 where
  volume_incremented : ℤ → Signal
  button_pressed button_released : Signal

pub record VolumeButton : Type 0 where
  pub enable_volume_changes : Bool

abbrev pub init : VolumeButton
init = record { enable_volume_changes = true }

turn : ℤ → List Signal
turn (negsuc n) = volume_incremented (negsuc 0) ∷ []
turn (pos n) = if n == 0 then [] else volume_incremented (pos 1) ∷ []

unfoldable pub process_rotary_event : VolumeButton → InputEvent → List Signal
unfolding turn
process_rotary_event b evt = if not b.enable_volume_changes then [] else turn evt.value

unfoldable pub monitor_rotary_button : VolumeButton → Bool → VolumeButton
monitor_rotary_button b active = record b { enable_volume_changes = active }

key : ℤ → List Signal
key (negsuc n) = []
key (pos n) =
    (if n == 1 then button_pressed ∷ [] else []) ++ (if n == 0 then button_released ∷ [] else [])

-- EV_KEY is 1 and KEY_HOME is 102.
unfoldable pub process_key_event : VolumeButton → InputEvent → List Signal
unfolding key
process_key_event b evt = if not (evt.type == 1) || not (evt.code == 102) then [] else key evt.value
