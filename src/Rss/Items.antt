-- ===== src/Rss/Items.antt =====
-- The items of a feed, read back from their tokens.
use digital_rooster_gui.Base.{
  if◌then◌else◌, ℕ, zero, suc, ◌+◌, ◌≤◌, ◌<◌, ◌≡◌, refl, ap, ◌∙◌, false, All, List, [], ◌∷◌, ◌++◌,
  arith, length, length-append,
}
use digital_rooster_gui.Playable.{PodcastEpisode}
use digital_rooster_gui.Rss.Tokens.{
  Token, Reader, invalid, start_element, end_element, read_next, has_error, name, namespace,
  is_start, is_end, starts, closes,
}
use digital_rooster_gui.Rss.{
  finish_episode, Formats, Flow, returned, thrown, Update, plain_element, itunes_element,
  episode_token, blank_episode, episode_loop, add_complete, parse_episodes,
}
use digital_rooster_gui.Rss.Feed.{
  Attributes, IsField, is_field, other, add_item, set_fields, Field, title, description, enclosure,
  pub_date, guid, duration, author, field_tokens, item_tokens, set_field, set_fields, read_fields,
}

module _ (q : Formats) where
  passes_field :
      (e : PodcastEpisode) (r : Reader) → is_field r.token ≡ false → episode_token q e r ≡ (e, r)
  unfolding episode_token plain_element itunes_element is_field
  passes_field e r h = ground arith

  -- One field takes one round.
  field_round :
      (x : Field) (f : ℕ) (e : PodcastEpisode) (t : Token) (rest : List Token)
      → has_error t ≡ false
      → IsField x
      → (t' : Token) × (has_error t' ≡ false)
        × (episode_loop q (suc f) e (record { token = t; rest = field_tokens x ++ rest })
            ≡ episode_loop q f (set_field q x e) (record { token = t'; rest = rest }))
  unfolding episode_loop episode_token plain_element itunes_element read_next has_error name
      namespace is_start closes
  field_round (title as' s) f e t rest h k = (s, k, rw (h, k))
  field_round (description as' s) f e t rest h k = (s, k, rw (h, k))
  field_round (enclosure as') f e t rest h k = (start_element "" "enclosure" as', refl, rw h)
  field_round (pub_date as' s) f e t rest h k = (s, k, rw (h, k))
  field_round (guid as' s) f e t rest h k = (s, k, rw (h, k))
  field_round (duration as' s) f e t rest h k =
      let e' = set_field q (duration as' s) e in
      let next = episode_loop q f e' (record { token = s; rest = rest }) in
      (s, k.0, rw (h, k.1) (ap (λ b. if b then thrown e' else next) k.0))
  field_round (author as' s) f e t rest h k = (s, k, rw (h, k))
  field_round (other s) f e t rest h k =
      (s, k.0, rw (h, passes_field e (record { token = s; rest = rest }) k.2, k.0, k.1))

  -- The fields in front of a tail that the loop treats by `end`, whatever the rounds left.
  item_rounds :
      (end : PodcastEpisode → Flow PodcastEpisode) (fs : List Field) (f : ℕ) (e : PodcastEpisode)
      (t : Token) (rest : List Token)
      → ((f : ℕ) (e : PodcastEpisode) (t : Token)
          → has_error t ≡ false
          → episode_loop q (suc f) e (record { token = t; rest = rest }) ≡ end e)
      → length fs < f
      → has_error t ≡ false
      → All IsField fs
      → episode_loop q f e (record { token = t; rest = item_tokens fs rest })
        ≡ end (set_fields q fs e)
  item_rounds end [] zero e t rest k l h ok = absurd (omega arith)
  item_rounds end [] (suc f) e t rest k l h ok = k f e t h
  item_rounds end (x ∷ fs) zero e t rest k l h ok = absurd (omega arith)
  item_rounds end (x ∷ fs) (suc f) e t rest k l h ok =
      let (t', h', step) = field_round x f e t (item_tokens fs rest) h ok.0 in
      step ∙ item_rounds end fs f (set_field q x e) t' rest k (omega arith) h' ok.1

  length-field_tokens : (x : Field) → 1 ≤ length (field_tokens x)
  length-field_tokens (title as' s) = omega arith
  length-field_tokens (description as' s) = omega arith
  length-field_tokens (enclosure as') = omega arith
  length-field_tokens (pub_date as' s) = omega arith
  length-field_tokens (guid as' s) = omega arith
  length-field_tokens (duration as' s) = omega arith
  length-field_tokens (author as' s) = omega arith
  length-field_tokens (other s) = omega arith

  pub length-item_tokens :
      (fs : List Field) (rest : List Token) → length fs + length rest ≤ length (item_tokens fs rest)
  length-item_tokens [] rest = omega arith
  length-item_tokens (f ∷ fs) rest = omega (
    arith,
    length-append (field_tokens f) (item_tokens fs rest),
    length-field_tokens f,
    length-item_tokens fs rest,
  )

  add_complete-item : (u : Update) (e : PodcastEpisode) → add_complete q u e ≡ add_item q u e
  unfolding add_complete
  add_complete-item u e = ground arith

  items_of :
      (end : PodcastEpisode → Flow PodcastEpisode) (attrs : Attributes) (fs : List Field)
      (u : Update) (rest : List Token)
      → ((f : ℕ) (e : PodcastEpisode) (t : Token)
          → has_error t ≡ false
          → episode_loop q (suc f) e (record { token = t; rest = rest }) ≡ end e)
      → All IsField fs
      → parse_episodes q u
          (record { token = start_element "" "item" attrs; rest = item_tokens fs rest })
        ≡ finish_episode q u
            (end (set_fields q fs (blank_episode q (q.new_uuid (length (item_tokens fs rest))))))
  unfolding parse_episodes starts is_start name has_error
  items_of end attrs fs u rest k ok =
      let more = item_tokens fs rest in
      rw
        (item_rounds end fs (suc (length more)) (blank_episode q (q.new_uuid (length more)))
          (start_element "" "item" attrs) rest k (omega (arith, length-item_tokens fs rest)) refl
          ok)
        refl

  pub parse_item :
      (attrs : Attributes) (fs : List Field) (u : Update) (rest : List Token)
      → All IsField fs
      → parse_episodes q u (record {
        token = start_element "" "item" attrs;
        rest = item_tokens fs (end_element "" "item" ∷ rest);
      })
        ≡ returned
            (add_item q u (read_fields q fs rest))
            (record { token = end_element "" "item"; rest = rest })
  unfolding episode_loop read_next closes is_end name finish_episode
  parse_item attrs fs u rest ok =
      items_of (λ e. returned e (record { token = end_element "" "item"; rest = rest })) attrs fs u
        (end_element "" "item" ∷ rest) (λ f e t h. rw h) ok
      ∙ ap (λ v. returned v (record { token = end_element "" "item"; rest = rest }))
          (add_complete-item u (read_fields q fs rest))

  -- An item that breaks off leaves nothing.
  pub break_item :
      (attrs : Attributes) (fs : List Field) (u : Update) (junk : List Token)
      → All IsField fs
      → parse_episodes q u
          (record { token = start_element "" "item" attrs; rest = item_tokens fs (invalid ∷ junk) })
        ≡ thrown u
  unfolding episode_loop episode_token read_next has_error closes is_end is_start finish_episode
  break_item attrs fs u junk ok = items_of thrown attrs fs u (invalid ∷ junk) (λ f e t h. rw h) ok
