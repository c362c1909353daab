-- ===== src/Player/Positions.antt =====
-- What becomes of the saved position of an item.
use digital_rooster_gui.Base.{
  subst, ℕ, ◌≡◌, ◌≢◌, refl, Bool, true, false, List, [], ◌∷◌, some, arith,
}
use digital_rooster_gui.Base.Int.{ℤ, pos}
use digital_rooster_gui.Playable
use digital_rooster_gui.Player.{
  stream, episode, with_seekable, move_item, media_changed, Player, Item, base, at,
  backend_position, seekable_changed, on_media_changed, on_position_changed, on_seekable_changed,
  set_media, stop,
}

with_seekable-position :
    (i : Item) (b : Bool) → (base (with_seekable i b)).position ≡ (base i).position
unfolding with_seekable Playable.set_seekable
with_seekable-position (stream i) b = refl
with_seekable-position (episode e) b = refl

at_same : (items : ℕ → Item) (c : ℕ) (i : Item) → at items c i c ≡ i
at_same items c i = ground arith

at-with_seekable :
    (items : ℕ → Item) (c : ℕ) (b : Bool)
    → (base (at items c (with_seekable (items c) b) c)).position ≡ (base (items c)).position
at-with_seekable items c b =
    rw (at_same items c (with_seekable (items c) b)) (with_seekable-position (items c) b)

move_item-position : (i : Item) (n : ℕ) → (base (move_item i (pos n)).0).position ≡ n
unfolding move_item Playable.set_item_position Playable.set_position
move_item-position (stream i) n = refl
move_item-position (episode e) n = ground arith

module _ {D : Type 0} where
  pub positions : Player D → List ℤ → Player D
  positions p [] = p
  positions p (z ∷ zs) = positions (on_position_changed p z).0 zs

  locked : (p : Player D) (z : ℤ) → p.position_updateable ≡ false → (on_position_changed p z).0 ≡ p
  unfolding on_position_changed
  locked p z h = ground arith

  positions_locked :
      (p : Player D) (zs : List ℤ) → p.position_updateable ≡ false → positions p zs ≡ p
  unfolding positions
  positions_locked p [] h = refl
  positions_locked p (z ∷ zs) h = rw (locked p z h) (positions_locked p zs h)

  -- After a stop no position that the backend reports reaches an item.
  pub stop_keeps : (p : Player D) (zs : List ℤ) → (positions (stop p).0 zs).items ≡ p.items
  unfolding stop
  stop_keeps p zs = rw (positions_locked (stop p).0 zs refl) refl

  -- A reported position reaches only the current item.
  pub position_changed_others :
      (p : Player D) (z : ℤ) (c q : ℕ)
      → p.current_item ≡ some c
      → q ≢ c
      → (on_position_changed p z).0.items q ≡ p.items q
  unfolding on_position_changed
  position_changed_others p z c q e n = ground arith

  -- The player after set_media and the backend's mediaChanged.
  marked : Player D → ℕ → Player D
  marked p c = record p {
    items = at p.items c (with_seekable (p.items c) false);
    current_item = some c;
  }

  seekable_seeks :
      (p : Player D) (c : ℕ)
      → p.current_item ≡ some c
      → (p' : Player D) × (on_seekable_changed p true
          ≡ some
              (p', seekable_changed true ∷ backend_position (pos (base (p.items c)).position) ∷ []))
        × (p'.position_updateable ≡ true)
  unfolding on_seekable_changed
  seekable_seeks p c e =
      let p' : Player D = record p {
        items = at p.items c (with_seekable (p.items c) true);
        position_updateable = true;
      } in
      (p', rw (e, at-with_seekable p.items c true) refl, refl)

  -- Where positions were not taken over, as after a stop, an item that is set, loaded and found to
  -- be seekable starts at its saved position, whatever positions the backend reports in between.
  pub set_media_resumes :
      (p : Player D) (c : ℕ) (zs : List ℤ)
      → p.position_updateable ≡ false
      → (p₁ p₂ : Player D) × (on_media_changed (set_media p c).0 ≡ some (p₁, media_changed ∷ []))
        × (on_seekable_changed (positions p₁ zs) true
            ≡ some (
              p₂,
              seekable_changed true ∷ backend_position (pos (base (p.items c)).position) ∷ [],
            ))
        × (p₂.position_updateable ≡ true)
  unfolding on_media_changed set_media marked
  set_media_resumes p c zs h =
      let (p₂, seeks, on) = seekable_seeks (marked p c) c refl in
      (
        marked p c,
        p₂,
        refl,
        rw (positions_locked (marked p c) zs h, ← at-with_seekable p.items c false) seeks,
        on,
      )

  -- A reported position of the current item, where positions are taken over.
  moved :
      (p : Player D) (c n : ℕ)
      → p.current_item ≡ some c
      → p.position_updateable ≡ true
      → ((base ((on_position_changed p (pos n)).0.items c)).position ≡ n)
        × ((on_position_changed p (pos n)).0.current_item ≡ some c)
  unfolding on_position_changed
  moved p c n e h = (
    rw (e, h, at_same p.items c (move_item (p.items c) (pos n)).0, move_item-position (p.items c) n)
        refl,
    rw (e, h) refl,
  )

  -- Where an item that plays is replaced without a stop, a position of zero that the backend
  -- reports before it knows whether the new item is seekable overwrites the saved position, and
  -- the item starts from zero.
  pub switch_loses_position :
      (p : Player D) (c : ℕ)
      → p.position_updateable ≡ true
      → (p₁ p₂ : Player D) × (on_media_changed (set_media p c).0 ≡ some (p₁, media_changed ∷ []))
        × ((base ((positions p₁ (pos 0 ∷ [])).items c)).position ≡ 0)
        × (on_seekable_changed (positions p₁ (pos 0 ∷ [])) true
            ≡ some (p₂, seekable_changed true ∷ backend_position (pos 0) ∷ []))
  unfolding on_media_changed set_media marked positions
  switch_loses_position p c h =
      let (zero_now, current) = moved (marked p c) c 0 refl h in
      let (p₂, seeks, _) = seekable_seeks (on_position_changed (marked p c) (pos 0)).0 c current in
      (
        marked p c,
        p₂,
        refl,
        zero_now,
        subst
            (λ n.
              on_seekable_changed (on_position_changed (marked p c) (pos 0)).0 true
              ≡ some (p₂, seekable_changed true ∷ backend_position (pos n) ∷ []))
            zero_now seeks,
      )
