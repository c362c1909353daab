-- ===== src/Rest/Alarms.antt =====
-- REST/AlarmApi.cpp over the alarm store of the configuration: what a request does and what it is
-- answered. The body of a request is parsed by Qt, so the parser is a parameter; `none` is a text
-- that is not JSON. Routes and sockets are Pistache's.
use digital_rooster_gui.Base.{
  ℕ, ◌≡◌, refl, String, List, [], ◌∷◌, ◌++◌, Option, none, some, arith, length-append,
}
use digital_rooster_gui.Json.{Json, Texts}
use digital_rooster_gui.Alarm.{Alarm, from_json_object, to_json_object}
use digital_rooster_gui.Configuration
use digital_rooster_gui.Configuration.{
  Configuration, Signal, find_by_id, remove_id, delete_by_id, alarm_id,
}

pub data Reply (Object : Type 0) : Type 0 where
  ok_object : Object → Reply Object
  ok bad_request bad_request_no_item_with_uuid : Reply Object

-- QUuid::fromString gives the null UUID for any other text.
abbrev pub uid_of : Texts → String → ℕ
uid_of texts param = elim (texts.uuid_from_string param) [ none ↦ 0 | some uid ↦ uid ]

answer_delete :
    {D Object : Type 0}
    → Configuration D
    → Option (Configuration D × List Signal)
    → Configuration D × Reply Object
answer_delete c none = (c, bad_request_no_item_with_uuid)
answer_delete c (some (c', signals)) = (c', ok)

unfoldable pub delete_alarm :
    {D Object : Type 0} → Texts → Configuration D → String → Configuration D × Reply Object
unfolding answer_delete
delete_alarm texts c param = answer_delete c (Configuration.delete_alarm c (uid_of texts param))

module _ {Object Value : Type 0} (json : Json Object Value) (texts : Texts) where
  answer_get : Option Alarm → Reply Object
  answer_get none = bad_request_no_item_with_uuid
  answer_get (some a) = ok_object (to_json_object json texts a)

  unfoldable pub get_alarm : {D : Type 0} → Configuration D → String → Reply Object
  unfolding answer_get
  get_alarm c param = answer_get (Configuration.get_alarm c (uid_of texts param))

  -- respond_SuccessCreated
  created : Alarm → Reply Object
  created a = ok_object (json.insert json.empty "id" (json.of_string (texts.uuid_to_string a.id)))

  answer_add : {D : Type 0} → Configuration D → Option Alarm → Configuration D × Reply Object
  answer_add c none = (c, bad_request)
  answer_add c (some a) = ((Configuration.add_alarm c a).0, created a)

  pub read_body : Option Object → String → Option Alarm
  read_body none fresh = none
  read_body (some o) fresh = from_json_object json texts o fresh

  unfoldable pub add_alarm :
      {D : Type 0}
      → (String → Option Object)
      → Configuration D
      → String
      → String
      → Configuration D × Reply Object
  unfolding answer_add created read_body
  add_alarm parse c body fresh = answer_add c (read_body (parse body) fresh)

find-append :
    (as' : List Alarm) (a : Alarm)
    → find_by_id alarm_id as' a.id ≡ none
    → find_by_id alarm_id (as' ++ a ∷ []) a.id ≡ some a
unfolding find_by_id
find-append [] a h = ground arith
find-append (x ∷ xs) a h = ground (arith, find-append xs a)

remove_id-append :
    (as' : List Alarm) (a : Alarm)
    → find_by_id alarm_id as' a.id ≡ none
    → remove_id alarm_id (as' ++ a ∷ []) a.id ≡ as'
unfolding find_by_id remove_id
remove_id-append [] a h = ground arith
remove_id-append (x ∷ xs) a h = ground (arith, remove_id-append xs a)

delete-append :
    (as' : List Alarm) (a : Alarm)
    → find_by_id alarm_id as' a.id ≡ none
    → delete_by_id alarm_id (as' ++ a ∷ []) a.id ≡ some as'
unfolding delete_by_id
delete-append as' a h = ground (arith, remove_id-append as' a h, length-append {0} as' (a ∷ []))

added :
    {D : Type 0} (c : Configuration D) (a : Alarm)
    → (Configuration.add_alarm c a).0.alarms ≡ c.alarms ++ a ∷ []
unfolding Configuration.add_alarm
added c a = refl

-- The deletion of the alarm that was added last.
deleted :
    {D Object : Type 0} (texts : Texts) (c : Configuration D) (as' : List Alarm) (a : Alarm)
    (param : String)
    → c.alarms ≡ as' ++ a ∷ []
    → uid_of texts param ≡ a.id
    → find_by_id alarm_id as' a.id ≡ none
    → ((delete_alarm {Object = Object} texts c param).1 ≡ ok)
      × ((delete_alarm {Object = Object} texts c param).0.alarms ≡ as')
unfolding delete_alarm Configuration.delete_alarm
deleted texts c as' a param e uid new = (
  rw (uid, e, find-append as' a new, delete-append as' a new) refl,
  rw (uid, e, find-append as' a new, delete-append as' a new) refl,
)

module _ {Object Value : Type 0} (json : Json Object Value) (texts : Texts) where
  -- What is answered where no alarm has the UUID.
  pub missing :
      {D : Type 0} (c : Configuration D) (param : String)
      → find_by_id alarm_id c.alarms (uid_of texts param) ≡ none
      → (get_alarm json texts c param ≡ bad_request_no_item_with_uuid)
        × (delete_alarm {Object = Object} texts c param ≡ (c, bad_request_no_item_with_uuid))
  unfolding get_alarm delete_alarm Configuration.get_alarm Configuration.delete_alarm
  missing c param e = (rw e refl, rw e refl)

  -- An alarm whose UUID is new to the store can be read after it was added; its deletion is
  -- acknowledged, leaves the alarms as they were before, and from then on reading it and deleting
  -- it again are refused.
  pub alarm_life :
      {D : Type 0} (parse : String → Option Object) (c : Configuration D)
      (body fresh param : String) (o : Object) (a : Alarm)
      → parse body ≡ some o
      → from_json_object json texts o fresh ≡ some a
      → uid_of texts param ≡ a.id
      → find_by_id alarm_id c.alarms a.id ≡ none
      → let c₁ = (add_alarm json texts parse c body fresh).0 in
        let c₂ = (delete_alarm {Object = Object} texts c₁ param).0 in
        (get_alarm json texts c₁ param ≡ ok_object (to_json_object json texts a))
        × ((delete_alarm {Object = Object} texts c₁ param).1 ≡ ok)
        × (c₂.alarms ≡ c.alarms)
        × (get_alarm json texts c₂ param ≡ bad_request_no_item_with_uuid)
        × (delete_alarm {Object = Object} texts c₂ param ≡ (c₂, bad_request_no_item_with_uuid))
  unfolding add_alarm get_alarm Configuration.get_alarm
  alarm_life {D} parse c body fresh param o a parsed read uid new =
      let c₁ : Configuration D = (add_alarm json texts parse c body fresh).0 in
      let c₂ : Configuration D = (delete_alarm {Object = Object} texts c₁ param).0 in
      let stored : c₁.alarms ≡ c.alarms ++ a ∷ [] = rw (parsed, read) (added c a) in
      let (done, back) = deleted {Object = Object} texts c₁ c.alarms a param stored uid new in
      let (unread, undeleted) = missing c₂ param (rw (back, uid) new) in
      (rw (uid, stored, find-append c.alarms a new) refl, done, back, unread, undeleted)
