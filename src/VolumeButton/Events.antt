-- ===== src/VolumeButton/Events.antt =====
-- Which events of the hardware get through.
use digital_rooster_gui.Base.{◌≡◌, ◌≢◌, ◌↔◌, ◌⊎◌, true, [], ◌∷◌, arith}
use digital_rooster_gui.Base.Int.{ℤ, pos, negsuc, ◌≤ℤ◌}
use digital_rooster_gui.VolumeButton.{
  VolumeButton, InputEvent, volume_incremented, button_pressed, button_released,
  process_rotary_event, process_key_event,
}

-- A turn of the knob gives one increment, of the sign of the event, exactly if the button is
-- enabled and the event is not zero.
pub process_rotary_event_exact :
    (b : VolumeButton) (evt : InputEvent) (v : ℤ)
    → (process_rotary_event b evt ≡ volume_incremented v ∷ []) ↔ (
        (b.enable_volume_changes ≡ true)
        × (evt.value ≢ pos 0)
        × (((pos 0 ≤ℤ evt.value) × (v ≡ pos 1)) ⊎ ((evt.value ≤ℤ pos 0) × (v ≡ negsuc 0))))
unfolding process_rotary_event
process_rotary_event_exact b evt v = (λ h. ground arith, λ h. ground arith)

-- Releasing or pressing a key is passed on exactly if the key is KEY_HOME, also while the knob is
-- disabled.
pub process_key_event_exact :
    (b : VolumeButton) (evt : InputEvent)
    → ((process_key_event b evt ≡ button_released ∷ [])
        ↔ ((evt.type ≡ 1) × (evt.code ≡ 102) × (evt.value ≡ pos 0)))
      × ((process_key_event b evt ≡ button_pressed ∷ [])
          ↔ ((evt.type ≡ 1) × (evt.code ≡ 102) × (evt.value ≡ pos 1)))
unfolding process_key_event
process_key_event_exact b evt =
    ((λ h. ground arith, λ h. ground arith), (λ h. ground arith, λ h. ground arith))
