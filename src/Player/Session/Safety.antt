-- ===== src/Player/Session/Safety.antt =====
-- A player with an item.
use digital_rooster_gui.Base.{
  ℕ, ◌≡◌, ◌≢◌, refl, ◌∙◌, map, inl, inr, String, Bool, true, false, List, [], ◌∷◌, ◌++◌, All,
  Option, some, arith, Bool-cases, str_eq, if◌then◌else◌,
}
use digital_rooster_gui.Base.Int.{pos}
use digital_rooster_gui.Double.{Double}
use digital_rooster_gui.Playable
use digital_rooster_gui.Player
use digital_rooster_gui.Player.Session
use digital_rooster_gui.Player.{
  Player, Item, base, Effect, at, on_media_changed, on_position_changed, on_seekable_changed,
  on_meta_data_available,
}
use digital_rooster_gui.Player.Session.{
  Event, calls, reports, Call, sets_media, Backend, Report, on_report, call, handle, then, run,
}

-- The item is not set.
abbrev pub Spares : {D : Type 0} → ℕ → Event D → Type 0
Spares q (calls b (sets_media media)) = q ≢ media
Spares q _ = Unit

at_other : (items : ℕ → Item) (c q : ℕ) (i : Item) → q ≢ c → at items c i q ≡ items q
at_other items c q i n = ground arith

module _ {D : Type 0} where
  -- There is a current item, not `q`, and `q` is as it was.
  Holds : ℕ → Player D → Player D → Type 0
  Holds q p p' = (c : ℕ) × (p'.current_item ≡ some c) × (q ≢ c) × (p'.items q ≡ p.items q)

  retext-Holds :
      (f : Item → String → Item × List Playable.Signal) (t : String) (q c : ℕ) (o : Option ℕ)
      (p : Player D)
      → o ≡ some c
      → q ≢ c
      → (r : Player D × List (Effect D)) × (Player.retext f t o p ≡ some r)
        × (r.0.current_item ≡ p.current_item)
        × (r.0.items q ≡ p.items q)
  unfolding Player.retext
  retext-Holds f t q c o p h n = elim (Bool-cases (str_eq t "")) [
    | inl e ↦ ((p, []), rw (h, e) refl, refl, refl)
    | inr e ↦ (
      (
        record p { items = at p.items c (f (p.items c) t).0 },
        map (λ s. Player.item_signal c s) (f (p.items c) t).1,
      ),
      rw (h, e) refl,
      refl,
      at_other p.items c q (f (p.items c) t).0 n,
    )
  ]

  also-some :
      (r s : Player D × List (Effect D)) (k : Player D → Option (Player D × List (Effect D)))
      → k r.0 ≡ some s
      → Player.also (some r) k ≡ some (s.0, r.1 ++ s.1)
  unfolding Player.also
  also-some (p, first) (p', second) k h = rw (Player.also, h) refl

  meta-Holds :
      (q c : ℕ) (p : Player D) (available : Bool) (title publisher : String)
      → p.current_item ≡ some c
      → q ≢ c
      → (r : Player D × List (Effect D)) × (on_meta_data_available p available title publisher
          ≡ some r)
        × Holds q p r.0
  unfolding on_meta_data_available Player.also Holds
  meta-Holds q c p false title publisher e n = ((p, []), refl, (c, e, n, refl))
  meta-Holds q c p true title publisher e n =
      let (r, named, current, same) = retext-Holds Player.titled title q c p.current_item p e n in
      let (s, by, current', same') =
        retext-Holds Player.published publisher q c p.current_item r.0 e n in
      (
        (s.0, r.1 ++ s.1),
        rw named (also-some r s (Player.retext Player.published publisher p.current_item) by),
        (c, current' ∙ current ∙ e, n, same' ∙ same),
      )

  seekable_item-Holds :
      (q c : ℕ) (p : Player D) (b : Bool) (o : Option ℕ)
      → o ≡ some c
      → p.current_item ≡ some c
      → q ≢ c
      → (s : Player D × List (Effect D)) × (Player.seekable_item p b o ≡ some s) × Holds q p s.0
  unfolding Player.seekable_item Player.mark_seekable Player.enable_position_update Holds
  seekable_item-Holds q c p b o h e n =
      let items = at p.items c (Player.with_seekable (p.items c) b) in
      (
        (
          record p { items = items; position_updateable = b },
          Player.seekable_changed b
              ∷ (if b then Player.do_set_position (pos (base (items c)).position) else []),
        ),
        rw h refl,
        (c, e, n, at_other p.items c q (Player.with_seekable (p.items c) b) n),
      )

  report-Holds :
      (q c : ℕ) (p : Player D) (r : Report)
      → p.current_item ≡ some c
      → q ≢ c
      → (s : Player D × List (Effect D)) × (on_report p r ≡ some s) × Holds q p s.0
  unfolding on_report on_media_changed on_position_changed on_seekable_changed Holds
  report-Holds q c p Report.media_changed e n = (
    (
      record p { items = at p.items c (Player.with_seekable (p.items c) false) },
      Player.media_changed ∷ [],
    ),
    rw e refl,
    (c, e, n, at_other p.items c q (Player.with_seekable (p.items c) false) n),
  )
  report-Holds q c p (Report.position_changed z) e n =
      (on_position_changed p z, refl, (c, ground arith, n, ground arith))
  report-Holds q c p (Report.seekable_changed b) e n =
      seekable_item-Holds q c p b p.current_item e e n
  report-Holds q c p (Report.meta_data_available_changed a t u) e n = meta-Holds q c p a t u e n
  report-Holds q c p (Report.error_reported m) e n = (_, refl, (c, e, n, refl))
  report-Holds q c p (Report.muted_changed b) e n = (_, refl, (c, e, n, refl))
  report-Holds q c p (Report.state_changed m) e n = (_, refl, (c, e, n, refl))
  report-Holds q c p (Report.duration_changed z) e n = (_, refl, (c, e, n, refl))
  report-Holds q c p (Report.media_status_changed m) e n = (_, refl, (c, e, n, refl))

  module _ (f : Double D) (convert : D → D) where
    call-Holds :
        (q c : ℕ) (p : Player D) (b : Backend) (k : Call D)
        → Spares q (calls b k)
        → p.current_item ≡ some c
        → q ≢ c
        → Holds q p (call f convert p b k).0
    unfolding call Holds Player.set_media Player.set_volume Player.increment_volume Player.stop
    call-Holds q c p b (sets_media media) h e n = (media, refl, h, refl)
    call-Holds q c p b (Call.sets_playlist m) h e n = (c, e, n, refl)
    call-Holds q c p b (Call.sets_position z) h e n = (c, e, n, refl)
    call-Holds q c p b (Call.seeks z) h e n = (c, e, n, refl)
    call-Holds q c p b (Call.sets_muted on) h e n = (c, e, n, refl)
    call-Holds q c p b (Call.sets_volume v) h e n = (c, e, n, refl)
    call-Holds q c p b (Call.increments_volume v) h e n = (c, e, n, refl)
    call-Holds q c p b Call.plays h e n = (c, e, n, refl)
    call-Holds q c p b Call.pauses h e n = (c, e, n, refl)
    call-Holds q c p b Call.stops h e n = (c, e, n, refl)

    handle-Holds :
        (q c : ℕ) (p : Player D) (e : Event D)
        → Spares q e
        → p.current_item ≡ some c
        → q ≢ c
        → (s : Player D × List (Effect D)) × (handle f convert p e ≡ some s) × Holds q p s.0
    unfolding handle
    handle-Holds q c p (calls b k) h e n = (call f convert p b k, refl, call-Holds q c p b k h e n)
    handle-Holds q c p (reports r) h e n = report-Holds q c p r e n

    -- From the first item on, whatever is called and whatever the backend reports, no null pointer
    -- is used, there is a current item, and an item that is neither current at first nor set keeps
    -- its position, its texts and all else.
    pub run_keeps :
        (q c : ℕ) (p : Player D) (es : List (Event D))
        → All (Spares q) es
        → p.current_item ≡ some c
        → q ≢ c
        → (s : Player D × List (Effect D)) × (run f convert p es ≡ some s)
          × (d : ℕ) × (s.0.current_item ≡ some d)
          × (s.0.items q ≡ p.items q)
    unfolding run Session.then Holds
    run_keeps q c p [] h e n = ((p, []), refl, c, e, refl)
    run_keeps q c p (x ∷ xs) h e n =
        let (s, step, (d, current, other, same)) = handle-Holds q c p x h.0 e n in
        let (t, rest, d', current', same') = run_keeps q d s.0 xs h.1 current other in
        ((t.0, s.1 ++ t.1), rw (step, rest) refl, d', current', same' ∙ same)
