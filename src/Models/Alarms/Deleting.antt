-- ===== src/Models/Alarms/Deleting.antt =====
-- The row that is deleted.
use digital_rooster_gui.Base.{
  ℕ, zero, suc, ◌≡◌, ◌≢◌, refl, subst, List, [], ◌∷◌, ◌++◌, Option, none, some, arith, All,
  get_elem?, take, drop,
}
use digital_rooster_gui.Base.Int.{pos}
use digital_rooster_gui.Alarm.{Alarm}
use digital_rooster_gui.Configuration.{Configuration, Signal, find_by_id, remove_id, alarm_id}
use digital_rooster_gui.Configuration.Maps.{deletes}
use digital_rooster_gui.Models.Rows.{at}
use digital_rooster_gui.Models.Alarms.{Notice, delete_alarm, deleted}

-- No two alarms have the same id.
abbrev pub Distinct : List Alarm → Type 0
Distinct [] = Unit
Distinct (a ∷ as') = All (λ b. b.id ≢ a.id) as' × Distinct as'

remove_id-absent :
    (n : ℕ) (as' : List Alarm) → All (λ b. b.id ≢ n) as' → remove_id alarm_id as' n ≡ as'
unfolding remove_id
remove_id-absent n [] h = refl
remove_id-absent n (a ∷ as') h = ground (arith, remove_id-absent n as' h.1, h.0)

All-get_elem? :
    (P : Alarm → Type 0) (as' : List Alarm) (i : ℕ) (a : Alarm)
    → All P as'
    → get_elem? as' i ≡ some a
    → P a
All-get_elem? P [] i a h e = absurd (ground arith)
All-get_elem? P (x ∷ xs) zero a h e = subst P (let q : x ≡ a = ground arith in q) h.0
All-get_elem? P (x ∷ xs) (suc i) a h e = All-get_elem? P xs i a h.1 e

remove_id-row :
    (as' : List Alarm) (i : ℕ) (a : Alarm)
    → Distinct as'
    → get_elem? as' i ≡ some a
    → remove_id alarm_id as' a.id ≡ take i as' ++ drop (suc i) as'
unfolding remove_id
remove_id-row [] i a d e = absurd (ground arith)
remove_id-row (x ∷ xs) zero a d e =
    let same : x.id ≡ a.id = ground arith in ground (arith, remove_id-absent x.id xs d.0)
remove_id-row (x ∷ xs) (suc i) a d e =
    let differs = All-get_elem? (λ b. b.id ≢ x.id) xs i a d.0 e in
    ground (arith, differs, remove_id-row xs i a d.1 e)

find-row :
    (as' : List Alarm) (i : ℕ) (a : Alarm)
    → get_elem? as' i ≡ some a
    → find_by_id alarm_id as' a.id ≢ none
unfolding find_by_id
find-row [] i a e = absurd (ground arith)
find-row (x ∷ xs) zero a e = ground arith
find-row (x ∷ xs) (suc i) a e = ground (arith, find-row xs i a e)

is_some : {T : Type 0} (o : Option T) → o ≢ none → (x : T) × (o ≡ some x)
is_some none h = absurd (h refl)
is_some (some x) h = (x, refl)

module _ {D : Type 0} where
  -- If no two alarms have the same id, deleting a row that exists takes exactly that alarm out of
  -- the store, and leaves the others in their order. The view hears of the removal of that row.
  pub delete_alarm-row :
      (c : Configuration D) (i : ℕ) (a : Alarm)
      → Distinct c.alarms
      → get_elem? c.alarms i ≡ some a
      → let (c', signals, notices) = delete_alarm c (pos i) in
        (c'.alarms ≡ take i c.alarms ++ drop (suc i) c.alarms)
        × (signals ≡ Signal.alarms_changed ∷ [])
        × (notices ≡ Notice.begin_remove_rows (pos i) ∷ Notice.end_remove_rows ∷ [])
  unfolding delete_alarm at
  delete_alarm-row c i a d e =
      let (x, found) = is_some (find_by_id alarm_id c.alarms a.id) (find-row c.alarms i a e) in
      rw (e, deleted, deletes c a.id x found) (remove_id-row c.alarms i a d e, refl, refl)
