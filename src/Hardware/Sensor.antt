-- ===== src/Hardware/Sensor.antt =====
-- The light sensor of libsrc/hardwarecontrol_mk3.cpp. A stream that has failed keeps its failbit, and
-- throws at every extraction from then on; a number that does not fit uint16_t is a failure. What the
-- file of a channel holds is given, `none` where it is no number.
pub mod Failing
use digital_rooster_gui.Base.{
  ℕ, ◌^◌, ◌≡◌, refl, Bool, true, false, ◌&&◌, List, [], ◌∷◌, ◌++◌, Option, none, some, ltb, arith,
  if◌then◌else◌, Bool-cases, inl, inr,
}
use digital_rooster_gui.Brightness.{AlsValue}

pub record Sensor : Type 0 where
  pub als_red : Bool
  pub als_green : Bool
  pub als_blue : Bool
  pub als_clear : Bool
  pub als_sensor_ok : Bool

-- The contents of the four files at one time.
pub record Raw : Type 0 where
  pub red : Option ℕ
  pub green : Option ℕ
  pub blue : Option ℕ
  pub clear : Option ℕ

-- What the extraction gives; `none` is std::ios_base::failure.
unfoldable pub read_sensor : Bool → Option ℕ → Option ℕ
read_sensor false content = none
read_sensor true none = none
read_sensor true (some val) = if ltb val (2 ^ 16) then some val else none

failed : Sensor → Sensor × List (AlsValue ℕ)
failed s = (record s { als_sensor_ok = false }, [])

-- The rest of the try block, once the values of the earlier channels are there.
announce : Sensor → ℕ → ℕ → ℕ → Option ℕ → Sensor × List (AlsValue ℕ)
announce s r g b none = failed (record s { als_clear = false })
announce s r g b (some c) = (s, record { red = r; green = g; blue = b; clear = c } ∷ [])

read_clear : Raw → Sensor → ℕ → ℕ → Option ℕ → Sensor × List (AlsValue ℕ)
read_clear raw s r g none = failed (record s { als_blue = false })
read_clear raw s r g (some b) = announce s r g b (read_sensor s.als_clear raw.clear)

read_blue : Raw → Sensor → ℕ → Option ℕ → Sensor × List (AlsValue ℕ)
read_blue raw s r none = failed (record s { als_green = false })
read_blue raw s r (some g) = read_clear raw s r g (read_sensor s.als_blue raw.blue)

read_green : Raw → Sensor → Option ℕ → Sensor × List (AlsValue ℕ)
read_green raw s none = failed (record s { als_red = false })
read_green raw s (some r) = read_blue raw s r (read_sensor s.als_green raw.green)

-- The values of als_value_changed.
unfoldable pub read_als_sensor : Sensor → Raw → Sensor × List (AlsValue ℕ)
unfolding failed announce read_clear read_blue read_green
read_als_sensor s raw =
    read_green raw (record s { als_sensor_ok = true }) (read_sensor s.als_red raw.red)

-- The events of the timer.
unfoldable pub samples : Sensor → List Raw → Sensor × List (AlsValue ℕ)
samples s [] = (s, [])
samples s (raw ∷ raws) =
    let (s₁, first) = read_als_sensor s raw in
    let (s₂, rest) = samples s₁ raws in (s₂, first ++ rest)
