-- ===== src/Tests/Devices.antt =====
-- The volume button, the power control, the backlight and the range requests.
use digital_rooster_gui.Base.{ℕ, true, false}
use digital_rooster_gui.Base.Int.{pos, negsuc}
use digital_rooster_gui.VolumeButton.{VolumeButton, InputEvent}
use digital_rooster_gui.Brightness.{BrightnessControl, AlsValue, Channel}

abbrev button : VolumeButton
button = record { enable_volume_changes = true }

abbrev left_turn : InputEvent
left_turn = record { code = 7; value = negsuc 0; type = 2 }

abbrev home_down : InputEvent
home_down = record { code = 102; value = pos 1; type = 1 }

abbrev dark : Channel ℕ
dark = record { newest = 0; second = 0; third = 0 }

abbrev pub panel : BrightnessControl ℕ
panel = record {
  brightness_act = pos 60;
  brightness_sb = pos 5;
  backlight_control = false;
  als_sensor = true;
  subscriptions = 0;
  current_brightness = pos 0;
  standby = true;
  reds = dark;
  greens = dark;
  blues = dark;
  clears = dark;
}

abbrev light : AlsValue ℕ
light = record { red = 1; green = 2; blue = 3; clear = 4 }

abbrev adapting : BrightnessControl ℕ
adapting = record panel { backlight_control = true; standby = false }
