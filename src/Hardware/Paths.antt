-- ===== src/Hardware/Paths.antt =====
-- libsrc/hardware_configuration.cpp: the paths of the devices. `env` is the environment of the
-- process; `none` is a variable that it does not have.
use digital_rooster_gui.Base.{
  arith, false, ◌≡◌, refl, String, not, Option, none, some, str_eq, if◌then◌else◌,
}

pub record HardwareConfiguration : Type 0 where
  pub sys_backlight_path : String
  pub sys_als_path : String
  pub dev_rotary_event_path : String
  pub dev_push_button_event_path : String

unfoldable pub override_if_env_var_exists : (String → Option String) → String → String → String
override_if_env_var_exists env env_var_name var = elim (env env_var_name) [
  | none ↦ var
  | some value ↦ if not (str_eq value "") then value else var
]

unfoldable pub from_environment : (String → Option String) → HardwareConfiguration
from_environment env = record {
  sys_backlight_path =
      override_if_env_var_exists env "BACKLIGHT_PATH" "/sys/class/leds/bl/brightness";
  sys_als_path = override_if_env_var_exists env "ALS_PATH" "/sys/bus/iio/devices/iio:device0/";
  dev_rotary_event_path = override_if_env_var_exists env "DR_ROTARY_EVENT_PATH" "";
  dev_push_button_event_path = override_if_env_var_exists env "DR_PUSH_EVENT_PATH" "";
}

overridden :
    (env : String → Option String) (name var : String)
    → str_eq var "" ≡ false
    → str_eq (override_if_env_var_exists env name var) "" ≡ false
unfolding override_if_env_var_exists
overridden env name var h = ground arith

-- Whatever the environment, the backlight and the sensor have a path.
pub paths_set :
    (env : String → Option String)
    → (str_eq (from_environment env).sys_backlight_path "" ≡ false)
      × (str_eq (from_environment env).sys_als_path "" ≡ false)
unfolding from_environment
paths_set env = (overridden env _ _ refl, overridden env _ _ refl)
