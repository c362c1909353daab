-- ===== src/Alarm.antt =====
-- include/alarm.hpp and libsrc/alarm.cpp, but for the schedule. A method that changes the alarm
-- returns the new alarm and the signals that it emits, in order.
pub mod Storage
use digital_rooster_gui.Base.{
  ℕ, String, Bool, true, false, List, [], ◌∷◌, Option, none, some, str_eq, if◌then◌else◌,
}
use digital_rooster_gui.Base.Int.{ℤ, pos}
use digital_rooster_gui.Json.{Json, Texts}

pub data Period : Type 0 where
  once daily weekend workdays : Period

-- `media` is the item of the alarm, named "Alarm"; it is kept as its URL.
pub record Alarm : Type 0 where
  pub id : ℕ
  pub media_url : String
  pub period : Period
  pub alarm_time : ℕ
  pub enabled : Bool
  pub timeout : ℤ
  pub volume : ℤ

pub data Signal : Type 0 where
  data_changed : Signal
  enabled_changed : Bool → Signal
  time_changed : ℕ → Signal
  media_url_changed : String → Signal
  period_changed : Period → Signal
  period_string_changed : String → Signal

abbrev pub default_alarm_timeout : ℤ
default_alarm_timeout = pos 30

abbrev pub default_alarm_volume : ℤ
default_alarm_volume = pos 30

-- The constructor from the URL, the time and the period.
unfoldable pub make : String → ℕ → Period → Bool → ℕ → Alarm
make url timepoint period enabled uid = record {
  id = uid;
  media_url = url;
  period = period;
  alarm_time = timepoint;
  enabled = enabled;
  timeout = default_alarm_timeout;
  volume = default_alarm_volume;
}

unfoldable pub alarm_period_to_string : Period → String
alarm_period_to_string daily = "daily"
alarm_period_to_string workdays = "workdays"
alarm_period_to_string weekend = "weekend"
alarm_period_to_string once = "once"

-- `none` is std::invalid_argument.
unfoldable pub string_to_alarm_period : String → Option Period
string_to_alarm_period literal =
    if str_eq "daily" literal
    then some daily
    else if str_eq "workdays" literal
    then some workdays
    else if str_eq "weekend" literal
    then some weekend
    else if str_eq "once" literal
    then some once
    else none

-- The second signal says `true` whatever the state.
unfoldable pub enable : Alarm → Bool → Alarm × List Signal
enable a state = (record a { enabled = state }, data_changed ∷ enabled_changed true ∷ [])

unfoldable pub set_time : Alarm → ℕ → Alarm × List Signal
set_time a timeofday =
    (record a { alarm_time = timeofday }, time_changed timeofday ∷ data_changed ∷ [])

unfoldable pub set_period : Alarm → Period → Alarm × List Signal
set_period a period = (
  record a { period = period },
  period_changed period ∷ period_string_changed (alarm_period_to_string period) ∷ [],
)

unfoldable pub update_media_url : Alarm → String → Alarm × List Signal
update_media_url a url = (record a { media_url = url }, media_url_changed url ∷ data_changed ∷ [])

unfoldable pub set_volume : Alarm → ℤ → Alarm
set_volume a volume = record a { volume = volume }

unfoldable pub set_timeout : Alarm → ℤ → Alarm
set_timeout a timeout = record a { timeout = timeout }

infixl 5 ◌>>=◌
abbrev ◌>>=◌ : {A B : Type 0} → Option A → (A → Option B) → Option B
none >>= f = none
some a >>= f = f a

module _ {Object Value : Type 0} (json : Json Object Value) (texts : Texts) where
  open json use {
    is_empty, contains, value, insert, empty, of_string, of_bool, of_int, to_string, to_bool,
    to_int,
  }

  -- The volume and the timeout of the configuration, where it has them.
  with_volume : Object → Alarm → Alarm
  with_volume o a =
      if contains o "volume"
      then set_volume a (to_int (value o "volume") default_alarm_volume)
      else a

  with_timeout : Object → Alarm → Alarm
  with_timeout o a =
      if contains o "alarmTimeout"
      then set_timeout a (to_int (value o "alarmTimeout") default_alarm_timeout)
      else a

  read_alarm : Object → String → Option Alarm
  unfolding make with_volume with_timeout set_volume set_timeout
  read_alarm o fresh = do
    url ← texts.url_from_encoded (to_string (value o "url") "")
    period ← string_to_alarm_period (to_string (value o "period") "daily")
    timepoint ← texts.time_from_string (to_string (value o "time") "")
    id ← texts.uuid_from_string (to_string (value o "id") fresh)
    some (
        with_timeout o
          (with_volume o (make url timepoint period (to_bool (value o "enabled") true) id)))

  -- `fresh` is the text of the UUID that QUuid::createUuid made; `none` is std::invalid_argument.
  unfoldable pub from_json_object : Object → String → Option Alarm
  unfolding read_alarm
  from_json_object o fresh = if is_empty o then none else read_alarm o fresh

  unfoldable pub to_json_object : Alarm → Object
  to_json_object a =
      let o₁ = insert empty "id" (of_string (texts.uuid_to_string a.id)) in
      let o₂ = insert o₁ "period" (of_string (alarm_period_to_string a.period)) in
      let o₃ = insert o₂ "time" (of_string (texts.time_to_string a.alarm_time)) in
      let o₄ = insert o₃ "volume" (of_int a.volume) in
      let o₅ = insert o₄ "url" (of_string a.media_url) in insert o₅ "enabled" (of_bool a.enabled)
