-- ===== src/Wifi/Reply.antt =====
-- The buffer `reply` of libsrc/wifi_control.cpp. A request writes its answer to the front of the
-- buffer and leaves the rest, and the scan results are parsed from the whole of it: `reply_size` stays
-- what the constructor set. `lines` is QString::fromLocal8Bit with splitRef.
use digital_rooster_gui.Base.{
  ℕ, zero, suc, ◌≤◌, ◌≡◌, refl, ap, sym, ◌∙◌, String, List, [], ◌∷◌, ◌++◌, Option, none, some,
  length, get_elem?, take, drop, arith,
}
use digital_rooster_gui.Base.Int.{ℤ}
use digital_rooster_gui.Wifi.{WifiNetwork, parse_scanresult}

abbrev pub reply_size : ℕ
reply_size = 2048

-- What wpa_ctrl_request does to the buffer; a datagram is cut to its size.
unfoldable pub receive : List ℕ → List ℕ → List ℕ
receive reply answer =
    let received = take reply_size answer in received ++ drop (length received) reply

-- The answers to one request after another.
unfoldable pub replies : List ℕ → List (List ℕ) → List ℕ
replies reply [] = reply
replies reply (answer ∷ answers) = replies (receive reply answer) answers

abbrev pub or_else : {A : Type 0} → Option A → Option A → Option A
or_else none o = o
or_else (some a) o = some a

-- The byte at `i` of the last answer that is long enough, or the one that was there.
abbrev pub latest : List (List ℕ) → ℕ → Option ℕ → Option ℕ
latest [] i old = old
latest (answer ∷ answers) i old =
    latest answers i (or_else (get_elem? (take reply_size answer) i) old)

drop-nil : (n : ℕ) → drop {A = ℕ} n [] ≡ []
drop-nil zero = refl
drop-nil (suc n) = refl

overlay-byte :
    (new old : List ℕ) (i : ℕ)
    → get_elem? (new ++ drop (length new) old) i ≡ or_else (get_elem? new i) (get_elem? old i)
overlay-byte [] old i = refl
overlay-byte (x ∷ xs) old zero = refl
overlay-byte (x ∷ xs) [] (suc i) =
    ap (λ l. get_elem? (xs ++ l) i) (sym (drop-nil (length xs))) ∙ overlay-byte xs [] i
overlay-byte (x ∷ xs) (y ∷ ys) (suc i) = overlay-byte xs ys i

-- At each place the buffer holds the byte of the last answer that was long enough.
pub replies-byte :
    (reply : List ℕ) (answers : List (List ℕ)) (i : ℕ)
    → get_elem? (replies reply answers) i ≡ latest answers i (get_elem? reply i)
unfolding replies receive
replies-byte reply [] i = refl
replies-byte reply (answer ∷ answers) i =
    replies-byte (receive reply answer) answers i
    ∙ ap (λ b. latest answers i b) (overlay-byte (take reply_size answer) reply i)

take-all : (n : ℕ) (xs : List ℕ) → length xs ≤ n → take n xs ≡ xs
take-all zero [] h = refl
take-all zero (x ∷ xs) h = absurd (omega (arith, h))
take-all (suc n) [] h = refl
take-all (suc n) (x ∷ xs) h = ap (λ l. x ∷ l) (take-all n xs (omega (arith, h)))

-- An answer written over one that begins with it changes nothing.
overlay_same :
    (seen gone rest : List ℕ)
    → seen ++ drop (length seen) ((seen ++ gone) ++ rest) ≡ (seen ++ gone) ++ rest
overlay_same [] gone rest = refl
overlay_same (x ∷ xs) gone rest = ap (λ l. x ∷ l) (overlay_same xs gone rest)

length-prefix : (seen gone : List ℕ) → length seen ≤ length (seen ++ gone)
length-prefix [] gone = omega arith
length-prefix (x ∷ xs) gone = omega (arith, length-prefix xs gone)

receive_again :
    (reply seen gone : List ℕ)
    → length (seen ++ gone) ≤ reply_size
    → receive (receive reply (seen ++ gone)) seen ≡ receive reply (seen ++ gone)
unfolding receive
receive_again reply seen gone h =
    let whole = take-all reply_size (seen ++ gone) h in
    let part = take-all reply_size seen (omega (arith, h, length-prefix seen gone)) in
    rw (whole, part) (overlay_same seen gone (drop (length (seen ++ gone)) reply))

module _ (fields : String → List String) (to_int : String → ℤ) (lines : List ℕ → List String) where
  -- request_wrapper with SCAN_RESULTS, and parse_scanresult.
  unfoldable pub scan_results : List ℕ → List ℕ → List ℕ × Option (List WifiNetwork)
  scan_results reply answer =
      let reply' = receive reply answer in (reply', parse_scanresult fields to_int (lines reply'))

  -- Where an answer that fits the buffer is followed by one that is a beginning of it, as when the
  -- networks at the end of the table have gone, the second scan has the results of the first.
  pub gone_networks_stay :
      (reply seen gone : List ℕ)
      → length (seen ++ gone) ≤ reply_size
      → scan_results (scan_results reply (seen ++ gone)).0 seen ≡ scan_results reply (seen ++ gone)
  unfolding scan_results
  gone_networks_stay reply seen gone h =
      ap (λ b. (b, parse_scanresult fields to_int (lines b))) (receive_again reply seen gone h)
