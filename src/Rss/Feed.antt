-- ===== src/Rss/Feed.antt =====
-- The tokens of a feed, as its entries, and what these say of a source.
use digital_rooster_gui.Base.{
  Option, none, some, ◌*◌, ◌≡◌, All, Bool, false, ◌&&◌, ◌||◌, str_eq, if◌then◌else◌, String, List,
  [], ◌∷◌, ◌++◌, length,
}
use digital_rooster_gui.Base.Int.{pos}
use digital_rooster_gui.Playable.{
  PodcastEpisode, do_get_display_name, set_guid, set_url, set_duration, set_publisher,
  set_publication_date, set_description as set_episode_description, set_title as set_episode_title,
}
use digital_rooster_gui.Podcast.{add_episode, set_title, set_description, set_link}
use digital_rooster_gui.Podcast.Icon.{Files, set_image_url}
use digital_rooster_gui.Rss.Tokens.{
  Token, end_document, start_element, end_element, invalid, end_document, has_error, text, name,
  namespace, attribute, is_start, starts, closes, at_end,
}
use digital_rooster_gui.Rss.{Formats, Update, call, itunes, try_parse, blank_episode}

abbrev pub Attributes : Type 0
Attributes = List (String × String)

-- What stands in an item: an element of interest with the token behind its start, whose text is taken,
-- an enclosure, or any other token, such as white space, the end of an element or an element of no
-- interest.
pub data Field : Type 0 where
  title description pub_date guid duration author : Attributes → Token → Field
  enclosure : Attributes → Field
  other : Token → Field

-- The same for what stands in a channel.
pub data Entry : Type 0 where
  feed_title feed_description link : Attributes → Token → Entry
  image : Attributes → Entry
  item : Attributes → List Field → Entry
  passed : Token → Entry

abbrev pub element : String → String → Attributes → Token → List Token
element ns n attrs t = start_element ns n attrs ∷ t ∷ []

abbrev pub field_tokens : Field → List Token
field_tokens (title attrs t) = element "" "title" attrs t
field_tokens (description attrs t) = element "" "description" attrs t
field_tokens (enclosure attrs) = start_element "" "enclosure" attrs ∷ []
field_tokens (pub_date attrs t) = element "" "pubDate" attrs t
field_tokens (guid attrs t) = element "" "guid" attrs t
field_tokens (duration attrs t) = element itunes "duration" attrs t
field_tokens (author attrs t) = element itunes "author" attrs t
field_tokens (other t) = t ∷ []

-- What stands before `rest` in a document.
abbrev pub item_tokens : List Field → List Token → List Token
item_tokens [] rest = rest
item_tokens (f ∷ fs) rest = field_tokens f ++ item_tokens fs rest

abbrev pub entry_tokens : Entry → List Token → List Token
entry_tokens (feed_title attrs t) rest = element "" "title" attrs t ++ rest
entry_tokens (feed_description attrs t) rest = element "" "description" attrs t ++ rest
entry_tokens (link attrs t) rest = element "" "link" attrs t ++ rest
entry_tokens (image attrs) rest = start_element itunes "image" attrs ∷ rest
entry_tokens (item attrs fs) rest =
    start_element "" "item" attrs ∷ item_tokens fs (end_element "" "item" ∷ rest)
entry_tokens (passed t) rest = t ∷ rest

abbrev pub feed_tokens : List Entry → List Token → List Token
feed_tokens [] rest = rest
feed_tokens (e ∷ es) rest = entry_tokens e (feed_tokens es rest)

-- A document with a prologue, up to the elements of its channel.
abbrev pub opening : List Token → Attributes → List Token → List Token
opening before attrs rest = before ++ start_element "" "channel" attrs ∷ rest

abbrev pub closing : List Token → List Token
closing after = end_element "" "channel" ∷ after ++ end_document ∷ []

abbrev one_of : List String → String → Bool
one_of [] n = false
one_of (m ∷ ms) n = str_eq n m || one_of ms n

-- The start of an element of interest in an item, and in a channel.
unfoldable pub is_field : Token → Bool
is_field t =
    is_start t
    && ((str_eq (namespace t) ""
          && one_of ("title" ∷ "description" ∷ "enclosure" ∷ "pubDate" ∷ "guid" ∷ []) (name t))
        || (str_eq (namespace t) itunes && one_of ("duration" ∷ "author" ∷ []) (name t)))

unfoldable pub is_entry : Token → Bool
is_entry t =
    is_start t
    && ((str_eq (namespace t) ""
          && one_of ("item" ∷ "title" ∷ "description" ∷ "link" ∷ []) (name t))
        || (str_eq (namespace t) itunes && one_of ("image" ∷ []) (name t)))

-- No error; other tokens neither close the item nor start an element of interest. Behind the start of
-- a duration the reader looks for the name of an author again.
abbrev pub IsField : Field → Type 0
IsField (title attrs t) = has_error t ≡ false
IsField (description attrs t) = has_error t ≡ false
IsField (pub_date attrs t) = has_error t ≡ false
IsField (guid attrs t) = has_error t ≡ false
IsField (duration attrs t) = (has_error t ≡ false) × (str_eq (name t) "author" ≡ false)
IsField (author attrs t) = has_error t ≡ false
IsField (enclosure attrs) = Unit
IsField (other t) = (has_error t ≡ false) × (closes "item" t ≡ false) × (is_field t ≡ false)

abbrev pub IsEntry : Entry → Type 0
IsEntry (feed_title attrs t) = has_error t ≡ false
IsEntry (feed_description attrs t) = has_error t ≡ false
IsEntry (link attrs t) = has_error t ≡ false
IsEntry (image attrs) = Unit
IsEntry (item attrs fs) = All IsField fs
IsEntry (passed t) = (has_error t ≡ false) × (closes "channel" t ≡ false) × (is_entry t ≡ false)

-- A token before or behind the channel: no other channel starts, and the document does not end.
abbrev pub IsOutside : Token → Type 0
IsOutside t = (starts "channel" t ≡ false) × (at_end t ≡ false)

-- Where a document breaks off: behind an entry, or in an item behind a field.
abbrev pub torn : Option (Attributes × List Field) → List Token → List Token
torn none junk = invalid ∷ junk
torn (some (attrs, fs)) junk = start_element "" "item" attrs ∷ item_tokens fs (invalid ∷ junk)

abbrev pub IsTorn : Option (Attributes × List Field) → Type 0
IsTorn none = Unit
IsTorn (some (attrs, fs)) = All IsField fs

module _ (q : Formats) where
  -- What a field says of an episode.
  abbrev pub set_field : Field → PodcastEpisode → PodcastEpisode
  set_field (title attrs t) e = (set_episode_title e (text t)).0
  set_field (description attrs t) e = (set_episode_description e (text t)).0
  set_field (enclosure attrs) e = record e {
    item = set_url e.item (q.url (attribute "url" (start_element "" "enclosure" attrs)));
  }
  set_field (pub_date attrs t) e = (set_publication_date q.is_valid e (q.date (text t))).0
  set_field (guid attrs t) e = set_guid e (text t)
  set_field (duration attrs t) e = (set_duration e (pos (try_parse q (text t) * 1000))).0
  set_field (author attrs t) e = (set_publisher e (text t)).0
  set_field (other t) e = e

  abbrev pub set_fields : List Field → PodcastEpisode → PodcastEpisode
  set_fields [] e = e
  set_fields (f ∷ fs) e = set_fields fs (set_field f e)

  -- The episode of an item before `rest`: its UUID is the one that is made at the start of the item.
  abbrev pub read_fields : List Field → List Token → PodcastEpisode
  read_fields fs rest =
      set_fields fs
        (blank_episode q (q.new_uuid (length (item_tokens fs (end_element "" "item" ∷ rest)))))

  -- An episode that can be shown and played is added, any other is passed over.
  abbrev pub add_item : Update → PodcastEpisode → Update
  add_item u e =
      if str_eq (do_get_display_name e) "" || str_eq e.media_url ""
      then u
      else ((add_episode q.earlier u.0 e).0, u.1 ++ (add_episode q.earlier u.0 e).1)

  module _ (files : Files) where
    -- What an entry of the feed before `rest` does to a source.
    abbrev pub apply_entry : Entry → List Token → Update → Update
    apply_entry (feed_title attrs t) rest u = call u (λ p. set_title p (text t))
    apply_entry (feed_description attrs t) rest u = call u (λ p. set_description p (text t))
    apply_entry (link attrs t) rest u = call u (λ p. set_link p (text t))
    apply_entry (image attrs) rest u = call u (λ p.
        set_image_url q.file_name q.local_name q.in_cache files p
          (q.url (attribute "href" (start_element itunes "image" attrs))))
    apply_entry (item attrs fs) rest u = add_item u (read_fields fs rest)
    apply_entry (passed t) rest u = u

    abbrev pub apply_feed : List Entry → List Token → Update → Update
    apply_feed [] rest u = u
    apply_feed (e ∷ es) rest u = apply_feed es rest (apply_entry e (feed_tokens es rest) u)
