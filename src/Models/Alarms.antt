-- ===== src/Models/Alarms.antt =====
-- qtgui/alarmlistmodel.cpp.
pub mod Deleting
use digital_rooster_gui.Base.{
  ℕ, zero, suc, String, Bool, true, false, List, [], ◌∷◌, ◌++◌, Option, none, some, length,
  if◌then◌else◌,
}
use digital_rooster_gui.Base.Int.{ℤ, pos, negsuc}
use digital_rooster_gui.Alarm.{Alarm, Period, daily, make, enable, set_time, alarm_period_to_string}
use digital_rooster_gui.Configuration
use digital_rooster_gui.Configuration.{Configuration, Signal, alarm_data_changed}
use digital_rooster_gui.Models.Rows.{check_selection, at, guarded}

pub data Role : Type 0 where
  periodicity_role period_string_role uri_role time_role enabled_role other_role : Role

pub data Variant : Type 0 where
  a_period : Period → Variant
  a_text : String → Variant
  a_time : ℕ → Variant
  a_flag : Bool → Variant

-- What the model tells its view.
pub data Notice : Type 0 where
  data_changed : ℤ → List Role → Notice
  begin_remove_rows : ℤ → Notice
  begin_insert_rows : ℕ → Notice
  end_remove_rows end_insert_rows : Notice

abbrev pub field : Role → Alarm → Option Variant
field periodicity_role a = some (a_period a.period)
field period_string_role a = some (a_text (alarm_period_to_string a.period))
field uri_role a = some (a_text "some uri")
field time_role a = some (a_time a.alarm_time)
field enabled_role a = some (a_flag a.enabled)
field other_role a = none

abbrev half_past_six : ℕ
half_past_six = 23400000

-- The alarm in a row, which the store shares.
change_row : List Alarm → ℕ → (Alarm → Alarm) → List Alarm
change_row [] i m = []
change_row (a ∷ as') zero m = m a ∷ as'
change_row (a ∷ as') (suc i) m = a ∷ change_row as' i m

module _ {D : Type 0} where
  unfoldable pub row_count : Configuration D → ℕ
  row_count c = length c.alarms

  -- The outer `none` is an exception.
  unfoldable pub data_of : Configuration D → ℤ → Role → Option (Option Variant)
  data_of c row role = guarded c.alarms row none (field role)

  -- The alarm emits dataChanged, which the configuration is connected to.
  enable_row : Configuration D → ℤ → Bool → Configuration D × List Signal
  enable_row c (negsuc n) enabled = (c, [])
  enable_row c (pos n) enabled =
      let as' = change_row c.alarms n (λ a. (enable a enabled).0) in
      alarm_data_changed (record c { settings = record c.settings { alarms = as' } })

  unfoldable pub set_enabled :
      Configuration D → ℤ → Bool → Configuration D × List Signal × List Notice
  unfolding enable_row change_row
  set_enabled c row enabled =
      if check_selection c.alarms row
      then (let (c', signals) = enable_row c row enabled in
          (c', signals, data_changed row (enabled_role ∷ []) ∷ []))
      else (c, [], [])

  -- The inner `none` is the null pointer, the outer an exception.
  unfoldable pub get_alarm : Configuration D → ℤ → Option (Option Alarm)
  get_alarm c row = guarded c.alarms row none (λ a. some a)

  unfoldable pub update_row : Configuration D → ℤ → List Notice
  update_row c row =
      if check_selection c.alarms row
      then data_changed row
          (time_role ∷ enabled_role ∷ periodicity_role ∷ period_string_role ∷ uri_role ∷ [])
        ∷ []
      else []

  -- Both exceptions, of `at` and of the store, are caught.
  deleted : Configuration D → Option Alarm → Configuration D × List Signal
  deleted c none = (c, [])
  deleted c (some a) = elim (Configuration.delete_alarm c a.id) [ none ↦ (c, []) | some r ↦ r ]

  unfoldable pub delete_alarm : Configuration D → ℤ → Configuration D × List Signal × List Notice
  unfolding deleted
  delete_alarm c row =
      let (c', signals) = deleted c (at c.alarms row) in
      (c', signals, begin_remove_rows row ∷ end_remove_rows ∷ [])

  -- `uid` is the number of the new UUID.
  unfoldable pub create_alarm : Configuration D → ℕ → Configuration D × List Signal × List Notice
  create_alarm c uid =
      let new_alarm = (set_time (make "" 0 daily true uid) half_past_six).0 in
      let (c', signals) = Configuration.add_alarm c new_alarm in
      (c', signals, begin_insert_rows (row_count c) ∷ end_insert_rows ∷ [])
