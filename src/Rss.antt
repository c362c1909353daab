-- ===== src/Rss.antt =====
-- libsrc/rss2podcastsource.cpp: the episodes and the description of a podcast are read from the
-- tokens of an RSS document. The reader itself is Qt's: a document is the list of the tokens that
-- QXmlStreamReader::readNext returns for it, an error is the token `invalid`, which comes again.
pub mod Tokens
pub mod Ends
pub mod Loops
pub mod Valid
pub mod Feed
pub mod Items
mod Outside
pub mod Documents
use digital_rooster_gui.Base.{
  ℕ, zero, suc, ◌+◌, ◌*◌, ◌%◌, String, Bool, true, false, not, ◌&&◌, List, [], ◌∷◌, ◌++◌, Option,
  none, some, length, str_eq, if◌then◌else◌,
}
use digital_rooster_gui.Base.Int.{ℤ, pos, negsuc}
use digital_rooster_gui.Playable.{
  PodcastEpisode, do_get_display_name, set_guid, set_url, set_duration, set_publisher,
  set_publication_date, set_description as set_episode_description, set_title as set_episode_title,
}
use digital_rooster_gui.Podcast.{
  PodcastSource, Effect, add_episode, set_title, set_description, set_link, set_last_updated,
}
use digital_rooster_gui.Podcast.Icon.{Files, set_image_url}
use digital_rooster_gui.Rss.Tokens.{
  Token, no_token, Reader, read_next, text, name, namespace, attribute, is_start, starts, closes,
  has_error, at_end,
}

-- Qt's conversions. `url` is the text of QUrl, `date` QDateTime::fromString for RFC 2822 with
-- `is_valid` for its result, `time` the seconds of QTime::fromString, by format, `integer`
-- QString::toInt, and `midnight_plus` those of QTime(0, 0).addSecs. `no_date` is the QDateTime of
-- the default constructor, `new_uuid` QUuid::createUuid where so many tokens are left, and `earlier`
-- the order of QDateTime.
pub record Formats : Type 0 where
  pub url : String → String
  pub date : String → ℕ
  pub is_valid : ℕ → Bool
  pub no_date : ℕ
  pub time : String → String → Option ℕ
  pub integer : String → Option ℤ
  pub midnight_plus : ℤ → ℕ
  pub new_uuid : ℕ → ℕ
  pub earlier : ℕ → ℕ → Bool
  pub file_name : String → String
  pub local_name : String → String
  pub in_cache : String → String

-- What a parser did: it returned, or it threw std::invalid_argument, with the state that it left.
-- `out_of_fuel` is a loop that did not end.
pub data Flow (A : Type 0) : Type 0 where
  returned : A → Reader → Flow A
  thrown : A → Flow A
  out_of_fuel : Flow A

-- What comes after a parser that returned.
abbrev pub and_then : {A : Type 0} → Flow A → (A → Reader → Flow A) → Flow A
and_then (returned a r) f = f a r
and_then (thrown a) f = thrown a
and_then out_of_fuel f = out_of_fuel

abbrev pub Update : Type 0
Update = PodcastSource × List Effect

-- A method of the source, with the effects that it adds.
abbrev pub call : Update → (PodcastSource → PodcastSource × List Effect) → Update
call (s, effects) m = let (s', new) = m s in (s', effects ++ new)

abbrev pub itunes : String
itunes = "http://www.itunes.com/dtds/podcast-1.0.dtd"

first_valid : (String → Option ℕ) → List String → Option ℕ
first_valid time [] = none
first_valid time (f ∷ fs) =
    let rest = first_valid time fs in elim (time f) [ none ↦ rest | some t ↦ some t ]

module _ (q : Formats) where
  -- The seconds of the time; QTime(0, 0) where nothing fits.
  unfoldable pub try_parse : String → ℕ
  unfolding first_valid
  try_parse s =
      elim (first_valid (λ f. q.time f s) ("hh:mm:ss" ∷ "h:mm:ss" ∷ "mm:ss" ∷ "m:ss" ∷ [])) [
        | some t ↦ t
        | none ↦ elim (q.integer s) [ some n ↦ q.midnight_plus n | none ↦ 0 ]
      ]

  -- An element of a feed without a namespace; the text of it is the next token's.
  plain_element : PodcastEpisode → Reader → PodcastEpisode × Reader
  plain_element e r =
      let next = read_next r in
      let content = text next.token in
      let named = λ (n : String). str_eq (name r.token) n in
      if named "title"
      then ((set_episode_title e content).0, next)
      else if named "description"
      then ((set_episode_description e content).0, next)
      else if named "enclosure"
      then (record e { item = set_url e.item (q.url (attribute "url" r.token)) }, r)
      else if named "pubDate"
      then ((set_publication_date q.is_valid e (q.date content)).0, next)
      else if named "guid"
      then (set_guid e content, next)
      else (e, r)

  -- An element of the namespace of iTunes: two tests, of the token that is then the current one.
  itunes_element : PodcastEpisode → Reader → PodcastEpisode × Reader
  itunes_element e r =
      let timed =
        if str_eq (name r.token) "duration"
        then ((set_duration e (pos (try_parse (text (read_next r).token) * 1000))).0, read_next r)
        else (e, r) in
      if str_eq (name timed.1.token) "author"
      then ((set_publisher timed.0 (text (read_next timed.1).token)).0, read_next timed.1)
      else timed

  -- The body of the loop of parse_episodes, up to the test for an error.
  episode_token : PodcastEpisode → Reader → PodcastEpisode × Reader
  unfolding plain_element itunes_element
  episode_token e r =
      if is_start r.token
      then (if str_eq (namespace r.token) ""
          then plain_element e r
          else if str_eq (namespace r.token) itunes
          then itunes_element e r
          else (e, r))
      else (e, r)

  -- `std::make_shared<PodcastEpisode>()`, with the number of the new UUID.
  pub blank_episode : ℕ → PodcastEpisode
  blank_episode uid = record {
    item = record {
      id = uid;
      display_name = "";
      title = "";
      publisher = "";
      media_url = "";
      position = 0;
      seekable = false;
    };
    description = "";
    guid = "";
    publication_date = q.no_date;
    duration = 0;
    listened = false;
  }

  episode_loop : ℕ → PodcastEpisode → Reader → Flow PodcastEpisode
  episode_loop zero e r = out_of_fuel
  episode_loop (suc f) e r =
      let next = read_next r in
      let (e', r') = episode_token e next in
      let again = episode_loop f e' r' in
      if closes "item" next.token
      then returned e next
      else if has_error r'.token
      then thrown e'
      else again

  -- What parse_episodes does with the episode that it read.
  pub add_complete : Update → PodcastEpisode → Update
  add_complete u e =
      if str_eq (do_get_display_name e) ""
      then u
      else if str_eq e.media_url ""
      then u
      else call u (λ s. add_episode q.earlier s e)

  finish_episode : Update → Flow PodcastEpisode → Flow Update
  finish_episode u (returned e r) = returned (add_complete u e) r
  finish_episode u (thrown e) = thrown u
  finish_episode u out_of_fuel = out_of_fuel

  -- A round of the loop reads at least one token, or the error that ends it.
  unfoldable pub parse_episodes : Update → Reader → Flow Update
  unfolding episode_loop finish_episode add_complete episode_token blank_episode
  parse_episodes u r =
      if starts "item" r.token
      then finish_episode u
          (episode_loop (suc (length r.rest)) (blank_episode (q.new_uuid (length r.rest))) r)
      else returned u r

  -- The body of the loop of parse_channel, up to the test for an error.
  module _ (files : Files) where
    feed_element : Update → Reader → Flow Update
    feed_element u r =
        let next = read_next r in
        let content = text next.token in
        if str_eq (name r.token) "item"
        then parse_episodes u r
        else if str_eq (name r.token) "title"
        then returned (call u (λ s. set_title s content)) next
        else if str_eq (name r.token) "description"
        then returned (call u (λ s. set_description s content)) next
        else if str_eq (name r.token) "link"
        then returned (call u (λ s. set_link s content)) next
        else returned u r

    image_element : Update → Reader → Flow Update
    image_element u r =
        if str_eq (name r.token) "image"
        then returned
            (call u (λ s.
              set_image_url q.file_name q.local_name q.in_cache files s
                (q.url (attribute "href" r.token))))
            r
        else returned u r

    channel_token : Update → Reader → Flow Update
    unfolding feed_element image_element
    channel_token u r =
        if is_start r.token
        then (if str_eq (namespace r.token) ""
            then feed_element u r
            else if str_eq (namespace r.token) itunes
            then image_element u r
            else returned u r)
        else returned u r

    channel_loop : ℕ → Update → Reader → Flow Update
    channel_loop zero u r = out_of_fuel
    channel_loop (suc f) u r =
        let next = read_next r in
        let again =
          and_then (channel_token u next)
            λ u' r'. if has_error r'.token then thrown u' else channel_loop f u' r' in
        if closes "channel" next.token then returned u next else again

    unfoldable pub parse_channel : Update → Reader → Flow Update
    unfolding channel_loop channel_token
    parse_channel u r =
        if starts "channel" r.token then channel_loop (suc (length r.rest)) u r else returned u r

    document_token : Update → Reader → Flow Update
    document_token u r =
        if starts "rss" r.token
        then returned u r
        else if starts "channel" r.token
        then parse_channel u r
        else returned u r

    -- The loop of update_podcast; the tests for an error and for the end are one.
    pub document_loop : ℕ → Update → Reader → Flow Update
    document_loop zero u r = out_of_fuel
    document_loop (suc f) u r =
        let next = read_next r in
        let again = and_then (document_token u next) (document_loop f) in
        if not (at_end r.token) && not (has_error r.token) then again else returned u r

    -- What follows the loop, and the handler of std::invalid_argument; `none` is a loop that did not
    -- end.
    finish : ℕ → Flow Update → Option Update
    finish now (returned (s, effects) r) = some (set_last_updated s now, effects)
    finish now (thrown u) = some u
    finish now out_of_fuel = none

    unfoldable pub update_podcast : ℕ → PodcastSource → List Token → Option Update
    unfolding finish document_loop document_token
    update_podcast now s tokens = finish now (
        document_loop (suc (suc (length tokens))) (s, [])
          (record { token = no_token; rest = tokens }))
