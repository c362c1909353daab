-- ===== src/Tests/Scans.antt =====
-- The buffer for the answers of wpa_supplicant.
use digital_rooster_gui.Base.{
  ℕ, ◌≡◌, String, List, [], ◌∷◌, ◌++◌, map, some, length, get_elem?, arith, ◌==◌, if◌then◌else◌,
}
use digital_rooster_gui.Base.Int.{ℤ, pos}
use digital_rooster_gui.Wifi.Reply.{replies, replies-byte, scan_results, gone_networks_stay}
use digital_rooster_gui.Tests.Instances.{tally}

-- The new line is 10.
abbrev joined : ℕ → List (List ℕ) → List (List ℕ)
joined b [] = (b ∷ []) ∷ []
joined b (l ∷ ls) = if b == 10 then [] ∷ l ∷ ls else (b ∷ l) ∷ ls

abbrev split : List ℕ → List (List ℕ)
split [] = [] ∷ []
split (b ∷ bs) = joined b (split bs)

abbrev lines : List ℕ → List String
lines bs = map (λ l. tally (length l)) (split bs)

abbrev five_fields : String → List String
five_fields s = s ∷ "2412" ∷ "-50" ∷ "[WPA2]" ∷ "home" ∷ []

abbrev strength : String → ℤ
strength s = pos 50

-- The header with one network, and another.
abbrev one_network : List ℕ
one_network = 72 ∷ 10 ∷ 65 ∷ 10 ∷ []

abbrev another : List ℕ
another = 66 ∷ 66 ∷ 10 ∷ []

abbrev blank : List ℕ
blank = 0 ∷ 0 ∷ 0 ∷ 0 ∷ 0 ∷ 0 ∷ 0 ∷ 0 ∷ 0 ∷ 0 ∷ []

gone_networks_stay_example :
    scan_results five_fields strength lines
      (scan_results five_fields strength lines blank (one_network ++ another)).0
      one_network
    ≡ scan_results five_fields strength lines blank (one_network ++ another)
gone_networks_stay_example =
    gone_networks_stay five_fields strength lines blank one_network another (omega arith)

sixth_byte : get_elem? (replies blank ((one_network ++ another) ∷ one_network ∷ [])) 5 ≡ some 66
sixth_byte = replies-byte blank ((one_network ++ another) ∷ one_network ∷ []) 5
