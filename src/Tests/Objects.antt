-- ===== src/Tests/Objects.antt =====
-- JSON objects, as lists of members.
use digital_rooster_gui.Base.{
  ℕ, ◌≡◌, refl, ap, String, Bool, true, false, List, [], ◌∷◌, str_eq, if◌then◌else◌,
}
use digital_rooster_gui.Base.Int.{ℤ, pos, pos_part}
use digital_rooster_gui.Json.{Json, Trees}

-- `Items` and `Members` are the lists inside an array and an object.
mutual
  pub data Value : Type 0 where
    literal : String → Value
    truth : Bool → Value
    number : ℤ → Value
    undefined : Value
    array : Items → Value
    object : Members → Value

  pub data Items : Type 0 where
    no_items : Items
    item : Value → Items → Items

  pub data Members : Type 0 where
    no_members : Members
    member : String → Value → Members → Members

abbrev pub Object : Type 0
Object = List (String × Value)

abbrev pub items_of : List Value → Items
items_of [] = no_items
items_of (v ∷ vs) = item v (items_of vs)

abbrev pub values_of : Items → List Value
values_of no_items = []
values_of (item v is) = v ∷ values_of is

abbrev pub members_of : Object → Members
members_of [] = no_members
members_of ((k, v) ∷ o) = member k v (members_of o)

abbrev pub object_of : Members → Object
object_of no_members = []
object_of (member k v ms) = (k, v) ∷ object_of ms

pub values-items : (vs : List Value) → values_of (items_of vs) ≡ vs
values-items [] = refl
values-items (v ∷ vs) = ap (λ l. v ∷ l) (values-items vs)

pub object-members : (o : Object) → object_of (members_of o) ≡ o
object-members [] = refl
object-members ((k, v) ∷ o) = ap (λ l. (k, v) ∷ l) (object-members o)

abbrev lookup : Object → String → Value
lookup [] j = undefined
lookup ((k, v) ∷ o) j = let rest = lookup o j in if str_eq k j then v else rest

abbrev has : Object → String → Bool
has [] j = false
has ((k, v) ∷ o) j = let rest = has o j in if str_eq k j then true else rest

abbrev is_nil : Object → Bool
is_nil [] = true
is_nil (x ∷ o) = false

abbrev as_text : Value → String → String
as_text (literal s) d = s
as_text (truth b) d = d
as_text (number n) d = d
as_text undefined d = d
as_text (array is) d = d
as_text (object ms) d = d

abbrev as_truth : Value → Bool → Bool
as_truth (literal s) d = d
as_truth (truth b) d = b
as_truth (number n) d = d
as_truth undefined d = d
as_truth (array is) d = d
as_truth (object ms) d = d

abbrev as_number : Value → ℤ → ℤ
as_number (literal s) d = d
as_number (truth b) d = d
as_number (number n) d = n
as_number undefined d = d
as_number (array is) d = d
as_number (object ms) d = d

abbrev as_object : Value → Object
as_object (object ms) = object_of ms
as_object _ = []

abbrev as_array : Value → List Value
as_array (array is) = values_of is
as_array _ = []

abbrev as_double : Value → ℕ → ℕ
as_double (number n) d = pos_part n
as_double _ d = d

abbrev missing : Value → Bool
missing undefined = true
missing _ = false

abbrev is_number : Value → Bool
is_number (number n) = true
is_number _ = false

abbrev is_literal : Value → Bool
is_literal (literal s) = true
is_literal _ = false

abbrev pub pairs : Json Object Value
pairs = record {
  empty = [];
  is_empty = is_nil;
  contains = has;
  value = lookup;
  insert = λ o k v. (k, v) ∷ o;
  of_string = literal;
  of_bool = truth;
  of_int = number;
  to_string = as_text;
  to_bool = as_truth;
  to_int = as_number;
  to_object = as_object;
  value-insert = λ o k j v. refl;
  contains-empty = λ k. refl;
  contains-insert = λ o k j v. refl;
  is_empty-insert = λ o k v. refl;
  to_string-of_string = λ s d. refl;
  to_string-missing = λ k d. refl;
  to_bool-of_bool = λ b d. refl;
  to_int-of_int = λ n d h. refl;
}

abbrev pub nested : Trees ℕ Object Value pairs
nested = record {
  is_undefined = missing;
  is_double = is_number;
  is_string = is_literal;
  of_object = λ o. object (members_of o);
  of_array = λ vs. array (items_of vs);
  of_double = λ x. number (pos x);
  undefined = undefined;
  to_array = as_array;
  to_double = as_double;
  to_object-of_object = object-members;
  to_array-of_array = values-items;
  to_double-of_double = λ x d. refl;
}
