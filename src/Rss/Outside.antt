-- ===== src/Rss/Outside.antt =====
-- What stands before and behind the channel of a document, and documents without a channel.
use digital_rooster_gui.Base.{
  ap, ℕ, zero, suc, ◌+◌, ◌<◌, ◌≡◌, refl, ◌∙◌, inl, inr, false, List, [], ◌∷◌, ◌++◌, some, arith,
  length, length-append, All, Bool-cases,
}
use digital_rooster_gui.Podcast.{PodcastSource, set_last_updated}
use digital_rooster_gui.Podcast.Icon.{Files}
use digital_rooster_gui.Rss.Tokens.{
  Token, no_token, end_document, start_element, invalid, Reader, read_next, has_error, name,
  is_start, starts, at_end,
}
use digital_rooster_gui.Rss.{
  Formats, returned, and_then, Update, parse_channel, document_token, document_loop, finish,
  update_podcast,
}
use digital_rooster_gui.Rss.Feed.{Attributes, IsOutside, opening}

module _ (q : Formats) (files : Files) where
  not_at_end : (t : Token) → at_end t ≡ false → has_error t ≡ false
  unfolding at_end has_error
  not_at_end t h = ground arith

  passes_outside :
      (x : Token) (u : Update) (rest : List Token)
      → starts "channel" x ≡ false
      → document_token q files u (record { token = x; rest = rest })
        ≡ returned u (record { token = x; rest = rest })
  unfolding document_token
  passes_outside x u rest h = ground arith

  outside_round :
      (f : ℕ) (u : Update) (t x : Token) (rest : List Token)
      → at_end t ≡ false
      → document_token q files u (record { token = x; rest = rest })
        ≡ returned u (record { token = x; rest = rest })
      → document_loop q files (suc f) u (record { token = t; rest = x ∷ rest })
        ≡ document_loop q files f u (record { token = x; rest = rest })
  unfolding document_loop read_next
  outside_round f u t x rest h same = rw (h, not_at_end t h, same) refl

  -- What stands before the channel.
  prologue :
      (before : List Token) (f : ℕ) (u : Update) (t : Token) (rest : List Token)
      → at_end t ≡ false
      → All IsOutside before
      → (t' : Token) × (at_end t' ≡ false)
        × (document_loop q files (length before + f) u (record { token = t; rest = before ++ rest })
            ≡ document_loop q files f u (record { token = t'; rest = rest }))
  prologue [] f u t rest h ok =
      let none_read : 0 + f ≡ f = omega arith in
      (t, h, ap (λ n. document_loop q files n u (record { token = t; rest = rest })) none_read)
  prologue (x ∷ before) f u t rest h ok =
      let (t', h', again) = prologue before f u x rest ok.0.1 ok.1 in
      let next : length (x ∷ before) + f ≡ suc (length before + f) = omega arith in
      (
        t',
        h',
        rw next (
            outside_round (length before + f) u t x (before ++ rest) h (passes_outside x u _ ok.0.0)
            ∙ again),
      )

  document_rounds :
      (tokens : List Token) (f : ℕ) (u : Update) (t : Token) (junk : List Token)
      → length tokens + 1 < f
      → All (λ t. starts "channel" t ≡ false) tokens
      → (r : Reader) × (document_loop q files f u
            (record { token = t; rest = tokens ++ invalid ∷ junk })
          ≡ returned u r)
  unfolding document_loop document_token read_next has_error at_end starts
  document_rounds tokens zero u t junk l h = absurd (omega arith)
  document_rounds [] (suc zero) u t junk l h = absurd (omega arith)
  document_rounds [] (suc (suc f)) u t junk l h = elim (Bool-cases (at_end t)) [
    | inl e ↦ (record { token = t; rest = invalid ∷ junk }, rw e)
    | inr e ↦ (record { token = invalid; rest = junk }, rw (e, not_at_end t e))
  ]
  document_rounds (x ∷ tokens) (suc f) u t junk l h = elim (Bool-cases (at_end t)) [
    | inl e ↦ (record { token = t; rest = (x ∷ tokens) ++ invalid ∷ junk }, rw e)
    | inr e ↦
        let (r, again) = document_rounds tokens f u x junk (omega arith) h.1 in
        let passed : document_token q files u
              (record { token = x; rest = tokens ++ invalid ∷ junk })
            ≡ returned u (record { token = x; rest = tokens ++ invalid ∷ junk }) =
          ground (arith, h.0) in
        (r, rw (e, not_at_end t e, passed) again)
  ]

  -- What stands behind the channel.
  pub epilogue :
      (after : List Token) (f : ℕ) (u : Update) (t : Token)
      → length after + 1 < f
      → at_end t ≡ false
      → All IsOutside after
      → (r : Reader) × (document_loop q files f u
            (record { token = t; rest = after ++ end_document ∷ [] })
          ≡ returned u r)
  unfolding document_loop read_next document_token starts at_end has_error is_start
  epilogue after zero u t l h ok = absurd (omega arith)
  epilogue [] (suc zero) u t l h ok = absurd (omega arith)
  epilogue [] (suc (suc f)) u t l h ok =
      (record { token = end_document; rest = [] }, rw (h, not_at_end t h) refl)
  epilogue (x ∷ after) (suc f) u t l h ok =
      let (r, again) = epilogue after f u x (omega arith) ok.0.1 ok.1 in
      (r, rw (h, not_at_end t h, passes_outside x u (after ++ end_document ∷ []) ok.0.0) again)

  -- The document up to the end of its channel.
  pub channel_read :
      (before : List Token) (attrs : Attributes) (body : List Token) (u : Update)
      → All IsOutside before
      → document_loop q files
          (suc (suc (length (opening before attrs body))))
          u
          (record { token = no_token; rest = opening before attrs body })
        ≡ and_then
            (parse_channel q files u
              (record { token = start_element "" "channel" attrs; rest = body }))
            (document_loop q files (suc (suc (length body))))
  unfolding document_loop document_token read_next starts is_start name at_end
  channel_read before attrs body u ok =
      let fuel : suc (suc (length (opening before attrs body)))
          ≡ length before + suc (suc (suc (length body))) =
        omega (arith, length-append before (start_element "" "channel" attrs ∷ body)) in
      let (t, h, step) =
        prologue before (suc (suc (suc (length body)))) u no_token
          (start_element "" "channel" attrs ∷ body) refl ok in
      ap
        (λ n.
          document_loop q files n u (record { token = no_token; rest = opening before attrs body }))
        fuel
      ∙ step
      ∙ rw (document_loop, h, not_at_end t h) refl

  -- An error outside of the channel is not noticed: a source is marked as updated by a document
  -- that has no channel.
  pub update_podcast_outside :
      (now : ℕ) (s : PodcastSource) (tokens junk : List Token)
      → All (λ t. starts "channel" t ≡ false) tokens
      → update_podcast q files now s (tokens ++ invalid ∷ junk) ≡ some (set_last_updated s now, [])
  unfolding update_podcast finish
  update_podcast_outside now s tokens junk h =
      let more = tokens ++ invalid ∷ junk in
      let (r, e) =
        document_rounds tokens (suc (suc (length more))) (s, []) no_token junk
          (omega (arith, length-append tokens (invalid ∷ junk))) h in
      rw e
