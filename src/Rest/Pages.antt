-- ===== src/Rest/Pages.antt =====
-- A client that reads a list in pages.
use Prim.Native.Nat.{min, max}
use digital_rooster_gui.Base.{
  ℕ, zero, suc, ◌+◌, ◌-◌, ◌^◌, ◌<◌, ◌≡◌, refl, ap, sym, ◌∙◌, String, List, [], ◌∷◌, ◌++◌, Option,
  none, some, arith, length, take, drop, take-append-drop, drop-drop, length-drop,
}
use digital_rooster_gui.Base.Int.{pos}
use digital_rooster_gui.Rest.{
  Stoi, number, capped, from_stoi, get_val_from_query_within_range, container_from_range,
  listed_items,
}
use digital_rooster_gui.Rest.Ranges.{capped_length}

module _ {A : Type 0} where
  drop-min : (o : ℕ) (xs : List A) → drop (min o (length xs)) xs ≡ drop o xs
  drop-min zero xs = let m : min 0 (length xs) ≡ 0 = omega arith in rw m refl
  drop-min (suc o) [] = let m : min (suc o) 0 ≡ 0 = omega arith in rw m refl
  drop-min (suc o) (x ∷ xs) =
      let m : min (suc o) (suc (length xs)) ≡ suc (min o (length xs)) = omega arith in
      rw m (drop-min o xs)

  take-min : (l : ℕ) (xs : List A) → take (min l (length xs)) xs ≡ take l xs
  take-min zero xs = let m : min 0 (length xs) ≡ 0 = omega arith in rw m refl
  take-min (suc l) [] = let m : min (suc l) 0 ≡ 0 = omega arith in rw m refl
  take-min (suc l) (x ∷ xs) =
      let m : min (suc l) (suc (length xs)) ≡ suc (min l (length xs)) = omega arith in
      rw m (ap (λ ys. x ∷ ys) (take-min l xs))

capped-min : (o size : ℕ) → capped (pos 0) (pos size) (pos o) ≡ pos (min o size)
unfolding capped
capped-min o size = ground arith

-- The items that a request with numbers gets, whatever the offset: past the end there are none.
pub page_at :
    {A : Type 0} (stoi : String → Stoi) (all : List A) (o_text l_text : String) (o l : ℕ)
    → stoi o_text ≡ number (pos o)
    → stoi l_text ≡ number (pos (suc l))
    → listed_items stoi all (some o_text) (some l_text) ≡ some (take (suc l) (drop o all))
unfolding listed_items get_val_from_query_within_range container_from_range from_stoi
page_at stoi all o_text l_text o l eo el =
    let size = length all in
    let first = min o size in
    let few : min (max 1 (suc l)) (size - first) ≡ min (suc l) (length (drop o all)) =
      omega (arith, length-drop {0} o all) in
    rw
      (
        eo,
        el,
        capped-min o size,
        capped_length first (suc l) size (omega arith),
        few,
        drop-min o all,
        take-min (suc l) (drop o all),
      )
      refl

module _ {A : Type 0} (stoi : String → Stoi) (text : ℕ → String) where
  -- The requests with the offsets from `o` on, each of `l` items, until the list is read; `none` is
  -- a request that fails, or no more requests allowed.
  unfoldable pub read_pages : ℕ → List A → ℕ → ℕ → Option (List A)
  read_pages zero all o l = none
  read_pages (suc n) all o l = elim (listed_items stoi all (some (text o)) (some (text l))) [
    | none ↦ none
    | some [] ↦ some []
    | some (x ∷ xs) ↦ elim (read_pages n all (o + l) l) [
      | none ↦ none
      | some rest ↦ some ((x ∷ xs) ++ rest)
    ]
  ]

  rest_pages :
      (all : List A) (l : ℕ)
      → ((m : ℕ) → m < 2 ^ 31 → stoi (text m) ≡ number (pos m))
      → length all + suc l < 2 ^ 31
      → (n o : ℕ) (ys : List A) → drop o all ≡ ys
      → o < length all + suc l
      → length ys < n
      → read_pages n all o (suc l) ≡ some ys
  unfolding read_pages
  rest_pages all l numbers fits zero o ys e near h = absurd (omega (arith, h))
  rest_pages all l numbers fits (suc n) o [] e near h =
      let page =
        page_at stoi all (text o) (text (suc l)) o l (numbers o (omega (arith, near, fits)))
          (numbers (suc l) (omega (arith, fits))) in
      rw (read_pages, page, e) refl
  rest_pages all l numbers fits (suc n) o (y ∷ ys) e near h =
      let page =
        page_at stoi all (text o) (text (suc l)) o l (numbers o (omega (arith, near, fits)))
          (numbers (suc l) (omega (arith, fits))) in
      let left : length all - o ≡ suc (length ys) = sym (length-drop {0} o all) ∙ ap length e in
      let next : drop (o + suc l) all ≡ drop l ys =
        sym (drop-drop (suc l) o all) ∙ ap (λ zs. drop (suc l) zs) e in
      let rest =
        rest_pages all l numbers fits n (o + suc l) (drop l ys) next (omega (arith, left))
          (omega (arith, h, length-drop {0} l ys)) in
      rw (read_pages, page, e, rest, take-append-drop l ys) refl

  -- If std::stoi reads the texts of the numbers below 2 ^ 31, enough requests for pages of a positive
  -- size, where that and the length of the list together are below 2 ^ 31, read the whole list, each
  -- item once and in order.
  pub read_pages_whole :
      (all : List A) (l n : ℕ)
      → ((m : ℕ) → m < 2 ^ 31 → stoi (text m) ≡ number (pos m))
      → length all + suc l < 2 ^ 31
      → length all < n
      → read_pages n all 0 (suc l) ≡ some all
  read_pages_whole all l n numbers fits h =
      rest_pages all l numbers fits n 0 all refl (omega arith) h
