-- ===== src/Hardware/Stub.antt =====
-- libsrc/hardwarecontrol_stub.cpp: the hardware of a build without the device.
use digital_rooster_gui.Base.{ℕ, Bool, false, List, [], ◌∷◌}
use digital_rooster_gui.Base.Int.{ℤ}
use digital_rooster_gui.Brightness.{AlsValue}

-- QCoreApplication::quit
pub data Effect : Type 0 where
  quit : Effect

unfoldable pub system_reboot : List Effect
system_reboot = quit ∷ []

unfoldable pub system_poweroff : List Effect
system_poweroff = quit ∷ []

unfoldable pub als_sensor_available : Bool
als_sensor_available = false

unfoldable pub read_als_sensor : AlsValue ℕ
read_als_sensor = record { red = 0; green = 0; blue = 0; clear = 0 }

unfoldable pub set_backlight : ℤ → List Effect
set_backlight brightness = []
