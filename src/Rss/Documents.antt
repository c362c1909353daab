-- ===== src/Rss/Documents.antt =====
-- Whole documents: well-formed ones and broken ones.
use digital_rooster_gui.Base.{
  ap, Option, none, ℕ, zero, suc, ◌+◌, ◌≤◌, ◌<◌, ◌≡◌, refl, ◌∙◌, false, List, [], ◌∷◌, ◌++◌, some,
  arith, length, length-append, All,
}
use digital_rooster_gui.Podcast.{PodcastSource, set_last_updated}
use digital_rooster_gui.Podcast.Icon.{Files}
use digital_rooster_gui.Rss.Tokens.{
  Token, end_document, start_element, end_element, Reader, read_next, has_error, name, namespace,
  is_start, is_end, starts, closes, at_end,
}
use digital_rooster_gui.Rss.{
  Formats, Flow, returned, thrown, and_then, Update, itunes, feed_element, image_element,
  channel_token, channel_loop, parse_channel, document_loop, finish, update_podcast,
}
use digital_rooster_gui.Rss.Feed.{
  Entry, feed_title, feed_description, link, image, item, passed, Attributes, Field, IsEntry,
  IsOutside, is_entry, torn, IsTorn, entry_tokens, feed_tokens, opening, closing, apply_entry,
  apply_feed,
}
use digital_rooster_gui.Rss.Items.{length-item_tokens, parse_item, break_item}
use digital_rooster_gui.Rss.Outside.{epilogue, channel_read}

module _ (q : Formats) (files : Files) where
  passes_entry :
      (u : Update) (r : Reader)
      → is_entry r.token ≡ false
      → channel_token q files u r ≡ returned u r
  unfolding channel_token feed_element image_element is_entry
  passes_entry u r h = ground arith

  -- One entry takes one round.
  entry_round :
      (x : Entry) (f : ℕ) (u : Update) (t : Token) (rest : List Token)
      → has_error t ≡ false
      → IsEntry x
      → (t' : Token) × (has_error t' ≡ false)
        × (channel_loop q files (suc f) u (record { token = t; rest = entry_tokens x rest })
            ≡ channel_loop q files f
                (apply_entry q files x rest u)
                (record { token = t'; rest = rest }))
  unfolding channel_loop channel_token feed_element image_element read_next has_error name namespace
      is_start closes
  entry_round (feed_title as' s) f u t rest h k = (s, k, rw (h, k))
  entry_round (feed_description as' s) f u t rest h k = (s, k, rw (h, k))
  entry_round (link as' s) f u t rest h k = (s, k, rw (h, k))
  entry_round (image as') f u t rest h k = (start_element itunes "image" as', refl, rw h)
  entry_round (item as' fs) f u t rest h k =
      (end_element "" "item", refl, rw (h, parse_item q as' fs u rest k))
  entry_round (passed s) f u t rest h k =
      (s, k.0, rw (h, passes_entry u (record { token = s; rest = rest }) k.2, k.0, k.1))

  -- The entries in front of a tail that the loop treats by `end`, whatever the rounds left.
  feed_rounds :
      (end : Update → Flow Update) (es : List Entry) (f : ℕ) (u : Update) (t : Token)
      (rest : List Token)
      → ((f : ℕ) (u : Update) (t : Token)
          → has_error t ≡ false
          → channel_loop q files (suc f) u (record { token = t; rest = rest }) ≡ end u)
      → length es < f
      → has_error t ≡ false
      → All IsEntry es
      → channel_loop q files f u (record { token = t; rest = feed_tokens es rest })
        ≡ end (apply_feed q files es rest u)
  feed_rounds end [] zero u t rest k l h ok = absurd (omega arith)
  feed_rounds end [] (suc f) u t rest k l h ok = k f u t h
  feed_rounds end (x ∷ es) zero u t rest k l h ok = absurd (omega arith)
  feed_rounds end (x ∷ es) (suc f) u t rest k l h ok =
      let (t', h', step) = entry_round x f u t (feed_tokens es rest) h ok.0 in
      step
      ∙ feed_rounds end es f (apply_entry q files x (feed_tokens es rest) u) t' rest k (omega arith)
          h' ok.1

  length-feed_tokens :
      (es : List Entry) (rest : List Token) → length es + length rest ≤ length (feed_tokens es rest)
  length-feed_tokens [] rest = omega arith
  length-feed_tokens (feed_title as' s ∷ es) rest = omega (arith, length-feed_tokens es rest)
  length-feed_tokens (feed_description as' s ∷ es) rest = omega (arith, length-feed_tokens es rest)
  length-feed_tokens (link as' s ∷ es) rest = omega (arith, length-feed_tokens es rest)
  length-feed_tokens (image as' ∷ es) rest = omega (arith, length-feed_tokens es rest)
  length-feed_tokens (item as' fs ∷ es) rest = omega (
    arith,
    length-feed_tokens es rest,
    length-item_tokens q fs (end_element "" "item" ∷ feed_tokens es rest),
  )
  length-feed_tokens (passed s ∷ es) rest = omega (arith, length-feed_tokens es rest)

  channel_of :
      (end : Update → Flow Update) (attrs : Attributes) (es : List Entry) (u : Update)
      (rest : List Token)
      → ((f : ℕ) (u : Update) (t : Token)
          → has_error t ≡ false
          → channel_loop q files (suc f) u (record { token = t; rest = rest }) ≡ end u)
      → All IsEntry es
      → parse_channel q files u
          (record { token = start_element "" "channel" attrs; rest = feed_tokens es rest })
        ≡ end (apply_feed q files es rest u)
  unfolding parse_channel starts is_start name has_error
  channel_of end attrs es u rest k ok =
      feed_rounds end es (suc (length (feed_tokens es rest))) u (start_element "" "channel" attrs)
        rest k (omega (arith, length-feed_tokens es rest)) refl ok

  -- A document that has, before and behind its channel, neither another channel nor an error, and in
  -- its channel any entries, among other tokens such as white space, ends of elements and elements of
  -- no interest, has exactly the effect of its entries, in order, and marks the source as updated now.
  pub update_podcast_feed :
      (now : ℕ) (s : PodcastSource) (before after : List Token) (attrs : Attributes)
      (es : List Entry)
      → All IsOutside before
      → All IsOutside after
      → All IsEntry es
      → update_podcast q files now s (opening before attrs (feed_tokens es (closing after)))
        ≡ some (
          set_last_updated (apply_feed q files es (closing after) (s, [])).0 now,
          (apply_feed q files es (closing after) (s, [])).1,
        )
  unfolding update_podcast finish channel_loop read_next is_end closes name has_error at_end
  update_podcast_feed now s before after attrs es first last ok =
      let u = apply_feed q files es (closing after) (s, []) in
      let body = feed_tokens es (closing after) in
      let (r, end) =
        epilogue q files after (suc (suc (length body))) u (end_element "" "channel")
          (omega
            (arith, length-feed_tokens es (closing after), length-append after (end_document ∷ [])))
          refl last in
      ap (finish q files now) (
        channel_read q files before attrs body (s, []) first
        ∙ ap (λ r. and_then r (document_loop q files (suc (suc (length body)))))
            (channel_of
              (λ u.
                returned u
                  (record { token = end_element "" "channel"; rest = after ++ end_document ∷ [] }))
              attrs es (s, []) (closing after) (λ f u t h. rw h) ok)
        ∙ end)

  break_off :
      (place : Option (Attributes × List Field)) (junk : List Token) (f : ℕ) (u : Update)
      (t : Token)
      → has_error t ≡ false
      → IsTorn place
      → channel_loop q files (suc f) u (record { token = t; rest = torn place junk }) ≡ thrown u
  unfolding channel_loop channel_token feed_element read_next is_start closes is_end name namespace
      has_error
  break_off none junk f u t h ok = rw h
  break_off (some (attrs, fs)) junk f u t h ok = rw (h, break_item q attrs fs u junk ok)

  -- A document with no other channel and no error before its channel, that breaks off in its channel
  -- behind any entries, or in an item behind any fields, has the effect of the entries before, and the
  -- source is not marked as updated.
  pub update_podcast_broken :
      (now : ℕ) (s : PodcastSource) (before : List Token) (attrs : Attributes) (es : List Entry)
      (place : Option (Attributes × List Field)) (junk : List Token)
      → All IsOutside before
      → All IsEntry es
      → IsTorn place
      → update_podcast q files now s (opening before attrs (feed_tokens es (torn place junk)))
        ≡ some (apply_feed q files es (torn place junk) (s, []))
  unfolding update_podcast finish
  update_podcast_broken now s before attrs es place junk first ok breaks =
      let body = feed_tokens es (torn place junk) in
      ap (finish q files now) (
        channel_read q files before attrs body (s, []) first
        ∙ ap (λ r. and_then r (document_loop q files (suc (suc (length body)))))
            (channel_of thrown attrs es (s, []) (torn place junk)
              (λ f u t h. break_off place junk f u t h breaks) ok))
