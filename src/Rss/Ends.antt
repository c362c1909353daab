-- ===== src/Rss/Ends.antt =====
-- The loop over an episode of an RSS document ends, and what the document can do to a source.
use digital_rooster_gui.Base.{ℕ, zero, suc, ◌≤◌, ◌<◌, ◌≡◌, refl, ◌⊎◌, String, false, arith, length}
use digital_rooster_gui.Playable.{PodcastEpisode}
use digital_rooster_gui.Podcast.{PodcastSource, add_episode, set_title, set_description, set_link}
use digital_rooster_gui.Rss.Tokens.{invalid, Reader, read_next, is_start, has_error}
use digital_rooster_gui.Podcast.Icon.{Files, set_image_url}
use digital_rooster_gui.Rss.{
  and_then, add_complete, blank_episode, finish_episode, parse_episodes, Formats, Flow, returned,
  thrown, out_of_fuel, Update, episode_token, episode_loop,
}

unfoldable pub left : Reader → ℕ
left r = length r.rest

-- A token is taken from the list, or it is the error.
pub read_next-cases : (r : Reader) → ((read_next r).token ≡ invalid) ⊎ (left (read_next r) < left r)
unfolding read_next left
read_next-cases r = ground arith

pub read_next-le : (r : Reader) → left (read_next r) ≤ left r
unfolding read_next left
read_next-le r = ground arith

module _ (q : Formats) where
  episode_token-le : (e : PodcastEpisode) (r : Reader) → left (episode_token q e r).1 ≤ left r
  unfolding episode_token
  episode_token-le e r = ground (arith, read_next-le r, read_next-le (read_next r))

  episode_token-invalid :
      (e : PodcastEpisode) (r : Reader) → r.token ≡ invalid → (episode_token q e r).1 ≡ r
  unfolding episode_token is_start
  episode_token-invalid e r h = ground arith

  -- After a round that ended without an error there are fewer tokens.
  good_token :
      (e : PodcastEpisode) (r : Reader)
      → has_error (episode_token q e (read_next r)).1.token ≡ false
      → left (read_next r) < left r
  unfolding has_error
  good_token e r h = ground (arith, read_next-cases r, episode_token-invalid e (read_next r))

-- A parser ended with at most `n` tokens left, in a state with `P`.
abbrev pub Ends : {A : Type 0} → (A → Type 0) → ℕ → Flow A → Type 0
Ends P n (returned a r) = P a × (left r ≤ n)
Ends P n (thrown a) = P a
Ends P n out_of_fuel = ⊥

module _ (q : Formats) where
  episode_loop-Ends :
      (f n : ℕ) (e : PodcastEpisode) (r : Reader)
      → left r < f
      → left r ≤ n
      → Ends (λ _. Unit) n (episode_loop q f e r)
  unfolding episode_loop
  episode_loop-Ends zero n e r h l = absurd (omega arith)
  episode_loop-Ends (suc f) n e r h l =
      let next = read_next r in
      let r' = (episode_token q e next).1 in
      ground (
        arith,
        read_next-le r,
        good_token q e r,
        episode_token-le q e next,
        episode_loop-Ends f n (episode_token q e next).0 r',
      )

pub Ends-and_then :
    {A : Type 0} {P : A → Type 0} (m n : ℕ) (x : Flow A) (f : A → Reader → Flow A)
    → Ends P m x
    → ((a : A) (r : Reader) → x ≡ returned a r → P a → left r ≤ m → Ends P n (f a r))
    → Ends P n (and_then x f)
Ends-and_then m n (returned a r) f h k = k a r refl h.0 h.1
Ends-and_then m n (thrown a) f h k = h
Ends-and_then m n out_of_fuel f h k = h

-- What the calls of update_podcast keep of a source.
pub record IsKept (q : Formats) (P : PodcastSource → Type 0) : Type 0 where
  pub by_title : (s : PodcastSource) (t : String) → P s → P (set_title s t).0
  pub by_description : (s : PodcastSource) (t : String) → P s → P (set_description s t).0
  pub by_link : (s : PodcastSource) (t : String) → P s → P (set_link s t).0
  pub by_image :
      (files : Files) (s : PodcastSource) (t : String)
      → P s
      → P (set_image_url q.file_name q.local_name q.in_cache files s t).0
  pub by_episode : (s : PodcastSource) (e : PodcastEpisode) → P s → P (add_episode q.earlier s e).0

module _ (q : Formats) (P : PodcastSource → Type 0) (kept : IsKept q P) where
  abbrev Holds : Update → Type 0
  Holds u = P u.0

  add_complete-Holds : (u : Update) (e : PodcastEpisode) → Holds u → Holds (add_complete q u e)
  unfolding add_complete
  add_complete-Holds u e h = ground (arith, kept.by_episode u.0 e h)

  finish_episode-Ends :
      (u : Update) (n : ℕ) (x : Flow PodcastEpisode)
      → Holds u
      → Ends (λ _. Unit) n x
      → Ends Holds n (finish_episode q u x)
  unfolding finish_episode
  finish_episode-Ends u n (returned e r) h k = (add_complete-Holds u e h, k.1)
  finish_episode-Ends u n (thrown e) h k = h
  finish_episode-Ends u n out_of_fuel h k = k

  pub parse_episodes-Ends :
      (u : Update) (r : Reader) → Holds u → Ends Holds (left r) (parse_episodes q u r)
  unfolding parse_episodes left
  parse_episodes-Ends u r h =
      let e = blank_episode q (q.new_uuid (length r.rest)) in
      let f = suc (length r.rest) in
      ground (
        arith,
        finish_episode-Ends u (left r) (episode_loop q f e r) h
            (episode_loop-Ends q f (left r) e r (omega arith) (omega arith)),
      )
