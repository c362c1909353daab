-- ===== src/Hardware/Sensor/Failing.antt =====
-- What the sensor announces until a channel fails, and after.
use digital_rooster_gui.Base.{
  ℕ, ◌^◌, ◌≡◌, refl, inl, inr, Bool, true, false, ◌&&◌, List, [], ◌∷◌, Option, none, some, ltb,
  arith, if◌then◌else◌, Option-cases,
}
use digital_rooster_gui.Brightness.{AlsValue}
use digital_rooster_gui.Hardware.Sensor.{
  Sensor, Raw, read_sensor, failed, announce, read_clear, read_blue, read_green, read_als_sensor,
  samples,
}

-- A value of 16 bits.
abbrev pub fits : Option ℕ → Option ℕ
fits none = none
fits (some n) = if ltb n (2 ^ 16) then some n else none

infixl 5 ◌>>=◌
abbrev ◌>>=◌ : {A B : Type 0} → Option A → (A → Option B) → Option B
none >>= f = none
some a >>= f = f a

-- The reading, if all four channels have one.
abbrev pub complete : Raw → Option (AlsValue ℕ)
complete raw = do
  r ← fits raw.red
  g ← fits raw.green
  b ← fits raw.blue
  c ← fits raw.clear
  some (record { red = r; green = g; blue = b; clear = c })

-- The readings before the first that lacks a channel.
abbrev pub announced : List Raw → List (AlsValue ℕ)
announced [] = []
announced (raw ∷ raws) = elim (complete raw) [ none ↦ [] | some v ↦ v ∷ announced raws ]

abbrev pub all_complete : List Raw → Bool
all_complete [] = true
all_complete (raw ∷ raws) = elim (complete raw) [ none ↦ false | some v ↦ all_complete raws ]

abbrev pub working : Bool → Sensor
working ok = record {
  als_red = true;
  als_green = true;
  als_blue = true;
  als_clear = true;
  als_sensor_ok = ok;
}

IsBroken : Sensor → Type 0
IsBroken s =
    ((s.als_red && s.als_green && s.als_blue && s.als_clear) ≡ false) × (s.als_sensor_ok ≡ false)

read-complete :
    (ok : Bool) (raw : Raw) (v : AlsValue ℕ)
    → complete raw ≡ some v
    → read_als_sensor (working ok) raw ≡ (working true, v ∷ [])
unfolding read_als_sensor failed announce read_clear read_blue read_green read_sensor
read-complete ok raw v h = ground arith

read-incomplete :
    (ok : Bool) (raw : Raw)
    → complete raw ≡ none
    → IsBroken (read_als_sensor (working ok) raw).0 × ((read_als_sensor (working ok) raw).1 ≡ [])
unfolding read_als_sensor failed announce read_clear read_blue read_green read_sensor IsBroken
read-incomplete ok raw h = ((ground arith, ground arith), ground arith)

IsBroken-outcome :
    (s : Sensor) (raw : Raw)
    → IsBroken s
    → IsBroken (read_als_sensor s raw).0 × ((read_als_sensor s raw).1 ≡ [])
unfolding read_als_sensor failed announce read_clear read_blue read_green read_sensor IsBroken
IsBroken-outcome s raw h = ((ground arith, ground arith), ground arith)

samples-broken :
    (s : Sensor) (raws : List Raw)
    → IsBroken s
    → ((samples s raws).1 ≡ []) × ((samples s raws).0.als_sensor_ok ≡ false)
unfolding samples IsBroken
samples-broken s [] h = (refl, h.1)
samples-broken s (raw ∷ raws) h =
    let (broken, silent) = IsBroken-outcome s raw h in
    let (rest, ok) = samples-broken (read_als_sensor s raw).0 raws broken in
    (rw (silent, rest) refl, ok)

-- From streams without a failure on, the sensor announces the readings before the first that lacks a
-- 16-bit value in a channel, and then none ever again; als_sensor_ok says whether all were complete.
pub samples-announced :
    (raws : List Raw)
    → ((samples (working true) raws).1 ≡ announced raws)
      × ((samples (working true) raws).0.als_sensor_ok ≡ all_complete raws)
unfolding samples
samples-announced [] = (refl, refl)
samples-announced (raw ∷ raws) = elim (Option-cases (complete raw)) [
  | inl e ↦
      let (broken, silent) = read-incomplete true raw e in
      let (rest, ok) = samples-broken (read_als_sensor (working true) raw).0 raws broken in
      (rw (silent, rest, announced, e) refl, rw (all_complete, e) ok)
  | inr (v, e) ↦
      let (rest, ok) = samples-announced raws in
      (
        rw (read-complete true raw v e, announced, e, rest) refl,
        rw (read-complete true raw v e, all_complete, e) ok,
      )
]
