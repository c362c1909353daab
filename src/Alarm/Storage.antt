-- ===== src/Alarm/Storage.antt =====
-- Alarms in the configuration file.
use digital_rooster_gui.Base.{
  ◌-◌, ◌%◌, ◌<◌, ◌≡◌, ◌≢◌, ◌↔◌, refl, subst, String, true, false, some, arith, eq_iff,
}
use digital_rooster_gui.Base.Int.{InInt32}
use digital_rooster_gui.Json.{Json, Texts, json_laws}
use digital_rooster_gui.Alarm.{
  Alarm, Period, once, daily, weekend, workdays, default_alarm_timeout, default_alarm_volume,
  alarm_period_to_string, string_to_alarm_period, to_json_object, from_json_object,
}

only : (s : String) (p : Period) → string_to_alarm_period s ≡ some p → alarm_period_to_string p ≡ s
unfolding string_to_alarm_period alarm_period_to_string
only s p h =
    ground (arith, eq_iff "daily" s, eq_iff "workdays" s, eq_iff "weekend" s, eq_iff "once" s)

-- The text of a period is read back as that period, and a text that is read as a period is its text.
pub string_to_alarm_period_iff :
    (s : String) (p : Period) → (string_to_alarm_period s ≡ some p) ↔ (alarm_period_to_string p ≡ s)
unfolding string_to_alarm_period alarm_period_to_string
string_to_alarm_period_iff s once =
    (λ h. only s once h, λ e. subst (λ t. string_to_alarm_period t ≡ some once) e refl)
string_to_alarm_period_iff s daily =
    (λ h. only s daily h, λ e. subst (λ t. string_to_alarm_period t ≡ some daily) e refl)
string_to_alarm_period_iff s weekend =
    (λ h. only s weekend h, λ e. subst (λ t. string_to_alarm_period t ≡ some weekend) e refl)
string_to_alarm_period_iff s workdays =
    (λ h. only s workdays h, λ e. subst (λ t. string_to_alarm_period t ≡ some workdays) e refl)

module _ {Object Value : Type 0} (json : Json Object Value) (texts : Texts) where
  -- What a reader finds in the object of an alarm.
  module _ (a : Alarm) where
    written_texts :
        (json.value (to_json_object json texts a) "id" ≡ json.of_string (texts.uuid_to_string a.id))
        × (json.value (to_json_object json texts a) "period"
            ≡ json.of_string (alarm_period_to_string a.period))
        × (json.value (to_json_object json texts a) "time"
            ≡ json.of_string (texts.time_to_string a.alarm_time))
        × (json.value (to_json_object json texts a) "url" ≡ json.of_string a.media_url)
    unfolding to_json_object
    written_texts = (simp json_laws, simp json_laws, simp json_laws, simp json_laws)

    written_values :
        (json.is_empty (to_json_object json texts a) ≡ false)
        × (json.contains (to_json_object json texts a) "volume" ≡ true)
        × (json.contains (to_json_object json texts a) "alarmTimeout" ≡ false)
        × (json.value (to_json_object json texts a) "volume" ≡ json.of_int a.volume)
        × (json.to_bool (json.value (to_json_object json texts a) "enabled") true ≡ a.enabled)
    unfolding to_json_object
    written_values =
        (simp json_laws, simp json_laws, simp json_laws, simp json_laws, simp json_laws)

  -- An alarm that is written and read back keeps all but its timeout, which becomes the default,
  -- and the seconds of its time of day.
  pub alarm_round_trip :
      (a : Alarm) (fresh : String)
      → a.id ≢ 0
      → a.alarm_time < 86400000
      → texts.url_from_encoded a.media_url ≡ some a.media_url
      → InInt32 a.volume
      → from_json_object json texts (to_json_object json texts a) fresh
        ≡ some (record a {
          alarm_time = a.alarm_time - a.alarm_time % 60000;
          timeout = default_alarm_timeout;
        })
  unfolding from_json_object
  alarm_round_trip a fresh id day url volume = ground (
    arith,
    written_texts a,
    written_values a,
    json.to_string-of_string (texts.uuid_to_string a.id) fresh,
    json.to_string-of_string (alarm_period_to_string a.period) "daily",
    json.to_string-of_string (texts.time_to_string a.alarm_time) "",
    json.to_string-of_string a.media_url "",
    json.to_int-of_int a.volume default_alarm_volume volume,
    texts.uuid_round_trip a.id id,
    texts.time_round_trip a.alarm_time day,
    string_to_alarm_period_iff (alarm_period_to_string a.period) a.period,
  )
