-- ===== src/Rest/Ranges.antt =====
-- Which items a list request gets.
use Prim.Native.Nat.{min, max}
use digital_rooster_gui.Base.{
  ℕ, ◌+◌, ◌-◌, ◌≤◌, ◌≡◌, ◌⊎◌, refl, String, List, ◌++◌, none, some, arith, length, take, drop,
  take-append-drop, drop-drop, length-take, length-drop,
}
use digital_rooster_gui.Base.Int.{ℤ, pos, ◌≤ℤ◌, pos_part, sub_ℕ}
use digital_rooster_gui.Base.{inl, inr}
use digital_rooster_gui.Rest.{
  capped, from_stoi, Stoi, number, invalid_argument, out_of_range, get_val_from_query_within_range,
  container_from_range, listed_items,
}

capped-range : (lo hi v : ℤ) → lo ≤ℤ hi → (lo ≤ℤ capped lo hi v) × (capped lo hi v ≤ℤ hi)
unfolding capped
capped-range lo hi v h = ground arith

from_stoi_outcome :
    (s : Stoi) (lo hi : ℤ)
    → lo ≤ℤ hi
    → ((s ≡ out_of_range) × (from_stoi s lo hi ≡ none))
      ⊎ ((v : ℤ) × (from_stoi s lo hi ≡ some v) × (lo ≤ℤ v) × (v ≤ℤ hi))
unfolding from_stoi
from_stoi_outcome (number n) lo hi h =
    let (above, below) = capped-range lo hi n h in inr (capped lo hi n, refl, above, below)
from_stoi_outcome invalid_argument lo hi h =
    let (above, below) = capped-range lo hi lo h in inr (capped lo hi lo, refl, above, below)
from_stoi_outcome out_of_range lo hi h = inl (refl, refl)

-- A value that is returned lies within the range, whatever the text, and only a number that is too
-- large for an `int` escapes as an exception.
pub get_val_within_range :
    (stoi : String → Stoi) (text : String) (lo hi : ℤ)
    → lo ≤ℤ hi
    → ((stoi text ≡ out_of_range) × (get_val_from_query_within_range stoi (some text) lo hi ≡ none))
      ⊎ ((v : ℤ) × (get_val_from_query_within_range stoi (some text) lo hi ≡ some v)
          × (lo ≤ℤ v)
          × (v ≤ℤ hi))
unfolding get_val_from_query_within_range
get_val_within_range stoi text lo hi h = from_stoi_outcome (stoi text) lo hi h

capped_offset : (o size : ℕ) → o ≤ size → capped (pos 0) (pos size) (pos o) ≡ pos o
unfolding capped
capped_offset o size h = ground arith

pub capped_length :
    (o l size : ℕ)
    → o ≤ size
    → pos_part (capped (pos 1) (sub_ℕ size o) (pos l)) ≡ min (max 1 l) (size - o)
unfolding capped
capped_length o l size h = ground arith

page_of :
    {A : Type 0} (stoi : String → Stoi) (all : List A) (o_text l_text : String) (o l : ℕ)
    → stoi o_text ≡ number (pos o)
    → stoi l_text ≡ number (pos l)
    → o ≤ length all
    → listed_items stoi all (some o_text) (some l_text)
      ≡ some (take (min (max 1 l) (length all - o)) (drop o all))
unfolding listed_items get_val_from_query_within_range container_from_range from_stoi
page_of stoi all o_text l_text o l eo el h =
    rw (eo, el, capped_offset o (length all) h, capped_length o l (length all) h) refl

-- The request for `l` items from the `o`-th on, of a list of `size` items, gets the items there: at
-- least one and at most what is left, where the offset lies within the list.
pub listed_items_page :
    {A : Type 0} (stoi : String → Stoi) (all : List A) (o_text l_text : String) (o l : ℕ)
    → stoi o_text ≡ number (pos o)
    → stoi l_text ≡ number (pos l)
    → o ≤ length all
    → (page : List A) × (listed_items stoi all (some o_text) (some l_text) ≡ some page)
      × (length page ≡ min (max 1 l) (length all - o))
      × (take o all ++ (page ++ drop (o + length page) all) ≡ all)
listed_items_page stoi all o_text l_text o l eo el h =
    let n = min (max 1 l) (length all - o) in
    let page = take n (drop o all) in
    let size : length page ≡ n =
      omega (arith, length-take {0} n (drop o all), length-drop {0} o all) in
    (
      page,
      page_of stoi all o_text l_text o l eo el h,
      size,
      rw (size, ← drop-drop n o all, take-append-drop n (drop o all)) (take-append-drop o all),
    )
