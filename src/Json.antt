-- ===== src/Json.antt =====
-- What the code takes from QJsonObject, QJsonValue, QUrl, QUuid and QTime: parameters of the
-- readers and writers, with the documented behaviour that these rely on as laws.
use digital_rooster_gui.Base.{
  ℕ, ◌-◌, ◌%◌, ◌<◌, ◌≡◌, ◌≢◌, String, Bool, true, false, List, Option, some, str_eq, if◌then◌else◌,
}
use digital_rooster_gui.Base.Int.{ℤ, InInt32}

-- `of_int` is the conversion of an integer to a JSON number, and the readers take the default for a
-- value of another type. A key that is not there has a value, the undefined one.
pub record Json (Object Value : Type 0) : Type 0 where
  pub empty : Object
  pub is_empty : Object → Bool
  pub contains : Object → String → Bool
  pub value : Object → String → Value
  pub insert : Object → String → Value → Object
  pub of_string : String → Value
  pub of_bool : Bool → Value
  pub of_int : ℤ → Value
  pub to_string : Value → String → String
  pub to_bool : Value → Bool → Bool
  pub to_int : Value → ℤ → ℤ
  pub to_object : Value → Object
  pub value-insert :
      (o : Object) (k j : String) (v : Value)
      → value (insert o k v) j ≡ (if str_eq k j then v else value o j)
  pub contains-empty : (k : String) → contains empty k ≡ false
  pub contains-insert :
      (o : Object) (k j : String) (v : Value)
      → contains (insert o k v) j ≡ (if str_eq k j then true else contains o j)
  pub is_empty-insert : (o : Object) (k : String) (v : Value) → is_empty (insert o k v) ≡ false
  pub to_string-of_string : (s d : String) → to_string (of_string s) d ≡ s
  pub to_string-missing : (k d : String) → to_string (value empty k) d ≡ d
  pub to_bool-of_bool : (b d : Bool) → to_bool (of_bool b) d ≡ b
  pub to_int-of_int : (n d : ℤ) → InInt32 n → to_int (of_int n) d ≡ n

-- The part of QJsonValue for nested objects, arrays and floating point numbers.
pub record Trees (D : Type 0) (Object Value : Type 0) (json : Json Object Value) : Type 0 where
  pub is_undefined : Value → Bool
  pub is_double : Value → Bool
  pub is_string : Value → Bool
  pub of_object : Object → Value
  pub of_array : List Value → Value
  pub of_double : D → Value
  pub undefined : Value
  pub to_array : Value → List Value
  pub to_double : Value → D → D
  pub to_object-of_object : (o : Object) → json.to_object (of_object o) ≡ o
  pub to_array-of_array : (vs : List Value) → to_array (of_array vs) ≡ vs
  pub to_double-of_double : (x d : D) → to_double (of_double x) d ≡ x

-- A QUuid is a number, the null one is 0; a QUrl is its text; a QTime is the milliseconds since
-- midnight. `none` is the invalid URL, the null UUID and the invalid time.
pub record Texts : Type 0 where
  pub url_from_encoded : String → Option String
  pub uuid_from_string : String → Option ℕ
  pub uuid_to_string : ℕ → String
  pub time_from_string : String → Option ℕ
  pub time_to_string : ℕ → String
  pub uuid_round_trip : (u : ℕ) → u ≢ 0 → uuid_from_string (uuid_to_string u) ≡ some u
  pub time_round_trip :
      (t : ℕ) → t < 86400000 → time_from_string (time_to_string t) ≡ some (t - t % 60000)

module _ {Object Value : Type 0} (json : Json Object Value) where
  pub value-insert :
      (o : Object) (k j : String) (v : Value)
      → json.value (json.insert o k v) j ≡ (if str_eq k j then v else json.value o j)
  value-insert = json.value-insert

  pub contains-insert :
      (o : Object) (k j : String) (v : Value)
      → json.contains (json.insert o k v) j ≡ (if str_eq k j then true else json.contains o j)
  contains-insert = json.contains-insert

  pub contains-empty : (k : String) → json.contains json.empty k ≡ false
  contains-empty = json.contains-empty

  pub is_empty-insert :
      (o : Object) (k : String) (v : Value) → json.is_empty (json.insert o k v) ≡ false
  is_empty-insert = json.is_empty-insert

  pub to_string-of_string : (s d : String) → json.to_string (json.of_string s) d ≡ s
  to_string-of_string = json.to_string-of_string

  pub to_bool-of_bool : (b d : Bool) → json.to_bool (json.of_bool b) d ≡ b
  to_bool-of_bool = json.to_bool-of_bool

-- The laws that hold with no condition.
pub ruleset json_laws = (
  value-insert, contains-insert, contains-empty, is_empty-insert, to_string-of_string,
  to_bool-of_bool,
)
