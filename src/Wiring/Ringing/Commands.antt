-- ===== src/Wiring/Ringing/Commands.antt =====
-- What the device asks of the player for an alarm, and that the backlight is none of its business.
use digital_rooster_gui.Base.{
  ℕ, ◌≡◌, refl, true, List, [], ◌∷◌, ◌++◌, All, All-append, some, ◌==◌, if◌then◌else◌,
}
use digital_rooster_gui.Base.Int.{pos}
use digital_rooster_gui.Double.{Double, clamp}
use digital_rooster_gui.Alarm.{Alarm}
use digital_rooster_gui.Power
use digital_rooster_gui.Monitor
use digital_rooster_gui.Brightness
use digital_rooster_gui.Player
use digital_rooster_gui.Player.{Player, base}
use digital_rooster_gui.Wiring
use digital_rooster_gui.Wiring.{
  Device, Output, player, power_call, power_signals, power_signal, to_hardware,
}
use digital_rooster_gui.Wiring.Ringing.{obey, obeys}

pub IsLight : Output → Type 0
IsLight (Wiring.set_backlight b) = Unit
IsLight _ = ⊥

to_hardware-IsLight : (ss : List Brightness.Signal) → All IsLight (to_hardware ss)
unfolding to_hardware IsLight
to_hardware-IsLight [] = tt
to_hardware-IsLight (Brightness.set_backlight b ∷ ss) = (tt, to_hardware-IsLight ss)
to_hardware-IsLight (Brightness.brightness_changed b ∷ ss) = (tt, to_hardware-IsLight ss)
to_hardware-IsLight (Brightness.active_brightness_changed b ∷ ss) = to_hardware-IsLight ss
to_hardware-IsLight (Brightness.standby_brightness_changed b ∷ ss) = to_hardware-IsLight ss
to_hardware-IsLight (Brightness.adaptive_mode_changed b ∷ ss) = to_hardware-IsLight ss

module _ {D : Type 0} (f : Double D) where
  lights :
      (d : Device D) → All IsLight (to_hardware (Brightness.set_active f d.brightness true).1 ++ [])
  lights d =
      All-append IsLight (to_hardware (Brightness.set_active f d.brightness true).1) []
        (to_hardware-IsLight (Brightness.set_active f d.brightness true).1) tt

  -- To become active concerns the backlight only.
  pub active-IsLight :
      (d : Device D) (s : Power.PowerState)
      → d.power ≡ s
      → All IsLight (power_call f d Power.activates).1
  unfolding power_call power_signals power_signal Power.step Power.activate
  active-IsLight d Power.active e = rw e (lights d)
  active-IsLight d Power.PowerState.standby e = rw e (lights d)

  module _ (convert : D → D) (media : ℕ → ℕ) where
    obeys-IsLight :
        (m : ℕ) (p : Player D) (os : List Output)
        → All IsLight os
        → obeys f convert media m p os ≡ (p, [])
    unfolding obeys obey IsLight
    obeys-IsLight m p [] h = refl
    obeys-IsLight m p (Wiring.set_backlight b ∷ os) h = rw (obeys-IsLight m p os h.1) refl
    obeys-IsLight m p (player c ∷ os) h = absurd (h.0)
    obeys-IsLight m p (Wiring.player_stop ∷ os) h = absurd (h.0)
    obeys-IsLight m p (Wiring.increment_volume n ∷ os) h = absurd (h.0)
    obeys-IsLight m p (Wiring.system_reboot ∷ os) h = absurd (h.0)
    obeys-IsLight m p (Wiring.system_poweroff ∷ os) h = absurd (h.0)

    -- The volume that an alarm asks for.
    abbrev pub loudness : Alarm → D
    loudness a = clamp f.less (f.of_int a.volume) (f.ratio 0 1) (f.ratio 100 1)

    -- What the backend of the player is told for an alarm, with the item that it plays.
    abbrev pub sound : Alarm → Player.Item → List (Player.Effect D)
    sound a i =
        let v = loudness a in
        Player.backend_media a.media_url
          ∷ (if (base i).position == 0
              then []
              else Player.backend_position (pos (base i).position) ∷ [])
        ++ Player.volume_changed v
          ∷ Player.backend_volume
              (f.round (f.mul (convert (f.div v (f.ratio 100 1))) (f.ratio 100 1)))
          ∷ Player.backend_play
          ∷ []

    -- The player after an alarm.
    abbrev pub playing : Player D → Alarm → ℕ → Player D
    playing p a m = record p { current_item = some m; linear_volume = loudness a }

    pub obeys-alarm :
        (p : Player D) (a : Alarm) (m : ℕ) (rest : List Output)
        → (base (p.items m)).media_url ≡ a.media_url
        → All IsLight rest
        → obeys f convert media m p (
            player (Monitor.set_media a.media_url)
            ∷ player (Monitor.set_volume a.volume)
            ∷ player Monitor.play
            ∷ rest)
          ≡ (playing p a m, sound a (p.items m))
    unfolding obeys obey Player.set_media Player.set_volume Player.play
    obeys-alarm p a m rest h lit = rw (obeys-IsLight m (playing p a m) rest lit, h) refl
