-- ===== src/Power/Signals.antt =====
-- What the listeners of the power control know.
use digital_rooster_gui.Base.{
  ◌⊎◌, ◌≡◌, refl, Bool, true, false, List, [], ◌∷◌, ◌++◌, Option, none, some, arith,
}
use digital_rooster_gui.Power.{
  PowerState, active, standby, Signal, power_state_changed, becoming_active, going_in_standby,
  shutdown_request, reboot_request, active_changed, Call, toggles, standbys, activates, power_offs,
  reboots, step, run,
}

-- A listener of `active` and one of `power_state_changed`: what each heard last.
pub record Heard : Type 0 where
  pub is_active : Option Bool
  pub state : PowerState

hear : Heard → Signal → Heard
hear h (active_changed b) = record h { is_active = some b }
hear h (power_state_changed s) = record h { state = s }
hear h becoming_active = h
hear h going_in_standby = h
hear h shutdown_request = h
hear h reboot_request = h

unfoldable pub hear_all : Heard → List Signal → Heard
unfolding hear
hear_all h [] = h
hear_all h (s ∷ ss) = hear_all (hear h s) ss

hear_all-append :
    (h : Heard) (ss ts : List Signal) → hear_all h (ss ++ ts) ≡ hear_all (hear_all h ss) ts
unfolding hear_all
hear_all-append h [] ts = refl
hear_all-append h (s ∷ ss) ts = hear_all-append (hear h s) ss ts

abbrev pub is_on : PowerState → Bool
is_on active = true
is_on standby = false

-- What a listener heard is right.
pub record Informed (s : PowerState) (h : Heard) : Type 0 where
  pub state_right : h.state ≡ s
  pub active_right : (h.is_active ≡ none) ⊎ (h.is_active ≡ some (is_on s))

step-Informed :
    (s : PowerState) (c : Call) (h : Heard)
    → Informed s h
    → Informed (step s c).0 (hear_all h (step s c).1)
unfolding step hear_all
step-Informed active toggles h i = ground arith
step-Informed standby toggles h i = ground arith
step-Informed active standbys h i = ground arith
step-Informed standby standbys h i = ground arith
step-Informed active activates h i = ground arith
step-Informed standby activates h i = ground arith
step-Informed s power_offs h i = i
step-Informed s reboots h i = i

-- Whatever the calls, a listener that knows the state, or starts with none, knows it afterwards:
-- the last `power_state_changed` and the last `active` that it heard agree with the state.
pub run-Informed :
    (s : PowerState) (cs : List Call) (h : Heard)
    → Informed s h
    → Informed (run s cs).0 (hear_all h (run s cs).1)
unfolding run
run-Informed s [] h i = unfold hear_all in i
run-Informed s (c ∷ cs) h i =
    rw (hear_all-append h (step s c).1 (run (step s c).0 cs).1)
      (run-Informed (step s c).0 cs _ (step-Informed s c h i))
