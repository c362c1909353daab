-- ===== src/Wifi/Table.antt =====
-- Which lines of a table of scan results become networks.
use digital_rooster_gui.Base.{
  Option-cases, ◌↔◌, ◌≤◌, ◌≡◌, ◌≢◌, refl, ◌⊎◌, inl, inr, String, true, false, List, [], ◌∷◌, none,
  some, arith, length, get_elem?, All, ltb,
}
use digital_rooster_gui.Base.Int.{ℤ}
use digital_rooster_gui.Wifi.{
  WifiNetwork, network, parse_error, line_to_network, interpret, parse_lines, parse_scanresult,
  rows,
}

module _ (fields : String → List String) (to_int : String → ℤ) where
  -- The network of a line with those fields: the first, the third and the fifth of them.
  abbrev pub Describes : List String → WifiNetwork → Type 0
  Describes list n =
      (get_elem? list 0 ≡ some n.bssid)
      × ((level : String) × (get_elem? list 2 ≡ some level) × (n.signal_strength ≡ to_int level))
      × (get_elem? list 4 ≡ some n.name)

  -- The networks of the lines with five fields or more, in order; the others have three at most.
  pub data Reads : List String → List WifiNetwork → Type 0 where
    nothing : Reads [] []
    reads :
        {line : String} {lines : List String} {n : WifiNetwork} {ns : List WifiNetwork}
        → 5 ≤ length (fields line)
        → Describes (fields line) n
        → Reads lines ns
        → Reads (line ∷ lines) (n ∷ ns)
    skips :
        {line : String} {lines : List String} {ns : List WifiNetwork}
        → length (fields line) ≤ 3
        → Reads lines ns
        → Reads (line ∷ lines) ns

  interpret_cases :
      (list : List String)
      → length list ≢ 4
      → ((n : WifiNetwork) × (5 ≤ length list)
          × Describes list n
          × (interpret fields to_int list ≡ some (network n)))
        ⊎ ((length list ≤ 3) × (interpret fields to_int list ≡ some parse_error))
  unfolding interpret
  interpret_cases [] h = inr (omega arith, refl)
  interpret_cases (a ∷ []) h = inr (omega arith, refl)
  interpret_cases (a ∷ b ∷ []) h = inr (omega arith, refl)
  interpret_cases (a ∷ b ∷ c ∷ []) h = inr (omega arith, refl)
  interpret_cases (a ∷ b ∷ c ∷ d ∷ []) h = absurd (h refl)
  interpret_cases (a ∷ b ∷ c ∷ d ∷ e ∷ rest) h =
      let enough : ltb 3 (length (a ∷ b ∷ c ∷ d ∷ e ∷ rest)) ≡ true = ground arith in
      let n : WifiNetwork = record {
        name = e;
        bssid = a;
        signal_strength = to_int c;
        connected = false;
        wps_available = false;
      } in
      inl (n, omega arith, (refl, (c, refl, refl), refl), rw enough refl)

  -- Where no line has exactly four fields the loop reads no field that is not there, and gives the
  -- networks that the lines describe, in order.
  parse_lines-Reads :
      (lines : List String)
      → All (λ line. length (fields line) ≢ 4) lines
      → (ns : List WifiNetwork) × (parse_lines fields to_int lines ≡ some ns) × Reads lines ns
  unfolding parse_lines line_to_network
  parse_lines-Reads [] h = ([], refl, nothing)
  parse_lines-Reads (line ∷ lines) h =
      let (ns, done, rest) = parse_lines-Reads lines h.1 in
      elim (interpret_cases (fields line) h.0) [
        | inl (n, enough, described, e) ↦ (n ∷ ns, rw (e, done) refl, reads enough described rest)
        | inr (few, e) ↦ (ns, rw (e, done) refl, skips few rest)
      ]

  -- If no row of the table has exactly four fields, the result is the networks that the rows between
  -- the first line and the last describe, in order, without those of at most three fields.
  pub parse_scanresult-Reads :
      (lines : List String)
      → All (λ line. length (fields line) ≢ 4) (rows fields to_int lines)
      → (ns : List WifiNetwork) × (parse_scanresult fields to_int lines ≡ some ns)
        × Reads (rows fields to_int lines) ns
  unfolding parse_scanresult
  parse_scanresult-Reads lines h = parse_lines-Reads (rows fields to_int lines) h

  interpret_four : (list : List String) → length list ≡ 4 → interpret fields to_int list ≡ none
  unfolding interpret
  interpret_four [] h = absurd (let p : 0 ≡ 4 = h in omega arith)
  interpret_four (a ∷ []) h = absurd (let p : 1 ≡ 4 = h in omega arith)
  interpret_four (a ∷ b ∷ []) h = absurd (let p : 2 ≡ 4 = h in omega arith)
  interpret_four (a ∷ b ∷ c ∷ []) h = absurd (let p : 3 ≡ 4 = h in omega arith)
  interpret_four (a ∷ b ∷ c ∷ d ∷ []) h = refl
  interpret_four (a ∷ b ∷ c ∷ d ∷ e ∷ rest) h = absurd (omega arith)

  parse_lines_four :
      (lines : List String) (ns : List WifiNetwork)
      → parse_lines fields to_int lines ≡ some ns
      → All (λ line. length (fields line) ≢ 4) lines
  unfolding parse_lines line_to_network
  parse_lines_four [] ns h = tt
  parse_lines_four (line ∷ lines) ns h = (
    λ four. ground (arith, interpret_four (fields line) four),
    elim (Option-cases (parse_lines fields to_int lines)) [
      | inl stuck ↦ absurd (ground arith)
      | inr (ms, done) ↦ parse_lines_four lines ms done
    ],
  )

  -- The parser reads past the end of a line exactly if some row has exactly four fields.
  pub parse_scanresult_defined :
      (lines : List String)
      → ((ns : List WifiNetwork) × (parse_scanresult fields to_int lines ≡ some ns))
        ↔ All (λ line. length (fields line) ≢ 4) (rows fields to_int lines)
  unfolding parse_scanresult
  parse_scanresult_defined lines = (
    λ (ns, h). parse_lines_four (rows fields to_int lines) ns h,
    λ h. let (ns, done, _) = parse_lines-Reads (rows fields to_int lines) h in (ns, done),
  )
