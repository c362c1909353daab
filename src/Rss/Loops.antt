-- ===== src/Rss/Loops.antt =====
-- The loops over an RSS document end, and what they keep of a source.
use digital_rooster_gui.Base.{
  ℕ, zero, suc, ◌≤◌, ◌<◌, ◌≡◌, refl, ◌⊎◌, inl, inr, false, List, [], some, arith, length,
  if◌then◌else◌,
}
use digital_rooster_gui.Podcast.{PodcastSource, set_last_updated}
use digital_rooster_gui.Rss.Tokens.{
  Token, no_token, invalid, Reader, text, attribute, read_next, is_start, starts, has_error, at_end,
}
use digital_rooster_gui.Podcast.Icon.{Files}
use digital_rooster_gui.Rss.{
  and_then, document_token, feed_element, image_element, channel_token, channel_loop, parse_channel,
  document_loop, finish, update_podcast, Formats, Flow, returned, thrown, out_of_fuel, Update,
}
use digital_rooster_gui.Rss.Ends.{
  left, read_next-cases, read_next-le, Ends, Ends-and_then, IsKept, parse_episodes-Ends,
}

module _ (q : Formats) (P : PodcastSource → Type 0) (kept : IsKept q P) where
  abbrev Holds : Update → Type 0
  Holds u = P u.0

  module _ (files : Files) where
    channel_token-Ends :
        (u : Update) (r : Reader) → Holds u → Ends Holds (left r) (channel_token q files u r)
    unfolding channel_token feed_element image_element
    channel_token-Ends u r h =
        let content = text (read_next r).token in
        ground (
          arith,
          read_next-le r,
          parse_episodes-Ends q P kept u r h,
          kept.by_title u.0 content h,
          kept.by_description u.0 content h,
          kept.by_link u.0 content h,
          kept.by_image files u.0 (q.url (attribute "href" r.token)) h,
        )

    channel_token-invalid :
        (u : Update) (r : Reader) → r.token ≡ invalid → channel_token q files u r ≡ returned u r
    unfolding channel_token is_start
    channel_token-invalid u r h = ground arith

    channel_loop-Ends :
        (f n : ℕ) (u : Update) (r : Reader)
        → left r < f
        → left r ≤ n
        → Holds u
        → Ends Holds n (channel_loop q files f u r)
    unfolding channel_loop has_error
    channel_loop-Ends zero n u r h l k = absurd (omega arith)
    channel_loop-Ends (suc f) n u r h l k =
        let next = read_next r in
        let rest : (u' : Update) (r' : Reader)
            → channel_token q files u next ≡ returned u' r'
            → Holds u'
            → left r' ≤ left next
            → Ends Holds n
                (if has_error r'.token then thrown u' else channel_loop q files f u' r') =
          λ u' r' e k' h'.
            ground (
              arith,
              read_next-cases r,
              channel_token-invalid u next,
              channel_loop-Ends f n u' r',
            ) in
        let again =
          Ends-and_then {P = Holds} (left next) n (channel_token q files u next)
            (λ u' r'. if has_error r'.token then thrown u' else channel_loop q files f u' r')
            (channel_token-Ends u next k) rest in
        ground (arith, read_next-le r, again)

    parse_channel-Ends :
        (u : Update) (r : Reader) → Holds u → Ends Holds (left r) (parse_channel q files u r)
    unfolding parse_channel left
    parse_channel-Ends u r k =
        ground (arith, channel_loop-Ends (suc (length r.rest)) (length r.rest) u r)

    document_token-Ends :
        (u : Update) (r : Reader) → Holds u → Ends Holds (left r) (document_token q files u r)
    unfolding document_token
    document_token-Ends u r k = ground (arith, parse_channel-Ends u r k)

    document_token-invalid :
        (u : Update) (r : Reader) → r.token ≡ invalid → document_token q files u r ≡ returned u r
    unfolding document_token starts
    document_token-invalid u r h = ground arith

    -- The rounds that are enough: one for a token each, one for the error, and the last test.
    budget : Reader → ℕ
    budget r = if at_end r.token then 1 else suc (suc (left r))

    document_loop-Ends :
        (f n : ℕ) (u : Update) (r : Reader)
        → budget r ≤ f
        → left r ≤ n
        → Holds u
        → Ends Holds n (document_loop q files f u r)
    unfolding document_loop budget at_end has_error
    document_loop-Ends zero n u r h l k = absurd (ground arith)
    document_loop-Ends (suc f) n u r h l k =
        let next = read_next r in
        let rest : at_end r.token ≡ false
            → (u' : Update) (r' : Reader) → document_token q files u next ≡ returned u' r'
            → Holds u'
            → left r' ≤ left next
            → Ends Holds n (document_loop q files f u' r') =
          λ g u' r' e k' h'.
            document_loop-Ends f n u' r'
              (ground (arith, read_next-cases r, document_token-invalid u next))
              (omega (arith, read_next-le r)) k' in
        let again : at_end r.token ≡ false
            → Ends Holds n (and_then (document_token q files u next) (document_loop q files f)) =
          λ g.
            Ends-and_then {P = Holds} (left next) n (document_token q files u next)
              (document_loop q files f) (document_token-Ends u next k) (rest g) in
        ground (arith, read_next-le r, again)

    -- Whatever the document, update_podcast ends. It keeps what its calls keep, and the source is
    -- then as they left it, or marked as updated now.
    pub update_podcast-ends :
        (now : ℕ) (s : PodcastSource) (tokens : List Token)
        → P s
        → (u : Update) × (update_podcast q files now s tokens ≡ some u)
          × (P u.0 ⊎ ((s' : PodcastSource) × P s' × (u.0 ≡ set_last_updated s' now)))
    unfolding update_podcast budget at_end left
    update_podcast-ends now s tokens k =
        go
          (document_loop q files (suc (suc (length tokens))) (s, [])
            (record { token = no_token; rest = tokens }))
          (document_loop-Ends (suc (suc (length tokens))) (length tokens) (s, [])
            (record { token = no_token; rest = tokens }) (omega arith) (omega arith) k)
      where
        go :
            (x : Flow Update)
            → Ends Holds (length tokens) x
            → (u : Update) × (finish q files now x ≡ some u)
              × (P u.0 ⊎ ((s' : PodcastSource) × P s' × (u.0 ≡ set_last_updated s' now)))
        go (returned u r) e = ((set_last_updated u.0 now, u.1), refl, inr (u.0, e.0, refl))
        go (thrown u) e = (u, refl, inl e)
        go out_of_fuel e = absurd e
