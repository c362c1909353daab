-- ===== src/Rest.antt =====
-- The ranges of the list requests: REST/common.hpp and get_val_from_query_within_range of
-- REST/ApiHandler.cpp.
pub mod Ranges
pub mod Pages
pub mod Alarms
pub mod Items
pub mod Server
use digital_rooster_gui.Base.{
  ℕ, ◌-◌, String, Bool, true, false, List, [], ◌∷◌, Option, none, some, length, take, drop,
  if◌then◌else◌,
}
use digital_rooster_gui.Base.Int.{ℤ, pos, negsuc, pos_part, ltb_ℤ, sub_ℕ}

-- What std::stoi does with a text: a number, or one of its two exceptions.
pub data Stoi : Type 0 where
  number : ℤ → Stoi
  invalid_argument out_of_range : Stoi

unfoldable pub capped : ℤ → ℤ → ℤ → ℤ
capped min max val =
    let low = if ltb_ℤ val min then min else val in if ltb_ℤ max low then max else low

-- `none` is the exception that is not caught.
unfoldable pub from_stoi : Stoi → ℤ → ℤ → Option ℤ
from_stoi (number val) min max = some (capped min max val)
from_stoi invalid_argument min max = some (capped min max min)
from_stoi out_of_range min max = none

-- Without a value std::bad_optional_access is caught.
unfoldable pub get_val_from_query_within_range : (String → Stoi) → Option String → ℤ → ℤ → Option ℤ
unfolding from_stoi capped
get_val_from_query_within_range stoi none min max = some (capped min max min)
get_val_from_query_within_range stoi (some text) min max = from_stoi (stoi text) min max

unfoldable pub container_from_range {ℓ} : {A : Type ℓ} → List A → ℕ → ℕ → List A
container_from_range all offset len = take len (drop offset all)

infixl 5 ◌>>=◌
abbrev ◌>>=◌ {ℓ} : {A : Type 0} {B : Type ℓ} → Option A → (A → Option B) → Option B
none >>= f = none
some a >>= f = f a

unfoldable pub get_offset : (String → Stoi) → Option String → ℕ → Option ℤ
get_offset stoi none size = some (pos 0)
get_offset stoi (some text) size =
    get_val_from_query_within_range stoi (some text) (pos 0) (pos size)

unfoldable pub get_length : (String → Stoi) → Option String → ℤ → ℕ → Option ℤ
get_length stoi none offset size = some (pos size)
get_length stoi (some text) offset size =
    get_val_from_query_within_range stoi (some text) (pos 1) (sub_ℕ size (pos_part offset))

-- The items of the response of respond_json_array.
unfoldable pub listed_items {ℓ} :
    {A : Type ℓ} → (String → Stoi) → List A → Option String → Option String → Option (List A)
unfolding get_offset get_length
listed_items stoi all offset_param length_param = do
  offset ← get_offset stoi offset_param (length all)
  len ← get_length stoi length_param offset (length all)
  some (container_from_range all (pos_part offset) (pos_part len))
