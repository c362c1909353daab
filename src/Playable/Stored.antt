-- ===== src/Playable/Stored.antt =====
-- The JSON form of items and episodes: from_json_object and to_json_object of
-- libsrc/playableitem.cpp. The text of a QDateTime is Qt's, so the two conversions are parameters;
-- `none` is an invalid date.
use digital_rooster_gui.Base.{
  ℕ, ◌*◌, ◌/◌, ◌<◌, ◌^◌, ◌≡◌, ◌≢◌, refl, String, false, not, ◌&&◌, Option, none, some, arith, leb,
  ◌==◌, if◌then◌else◌,
}
use digital_rooster_gui.Base.Int.{ℤ, pos}
use digital_rooster_gui.Json.{Json, Texts, json_laws}
use digital_rooster_gui.Playable.Progress.{quotient_iff}
use digital_rooster_gui.Playable.{
  PlayableItem, PodcastEpisode, get_guid, set_guid, set_duration, set_position, set_publisher,
  set_description, set_title,
}

infixl 5 ◌>>=◌
abbrev ◌>>=◌ : {A B : Type 0} → Option A → (A → Option B) → Option B
none >>= f = none
some a >>= f = f a

-- The constructor from the name and the URL.
abbrev pub new_item : String → String → ℕ → PlayableItem
new_item name url uid = record {
  id = uid;
  display_name = name;
  title = "";
  publisher = "";
  media_url = url;
  position = 0;
  seekable = false;
}

-- The constructor of an episode; `now` is the current time.
abbrev pub new_episode : String → String → ℕ → ℕ → PodcastEpisode
new_episode title url uid now =
    (set_title
      (record {
        item = new_item title url uid;
        description = "";
        guid = "";
        publication_date = now;
        duration = 0;
        listened = false;
      })
      title).0

abbrev with_date : Option ℕ → PodcastEpisode → PodcastEpisode
with_date none e = e
with_date (some d) e = record e { publication_date = d }

quotient : (m d : ℕ) → d ≢ 0 → leb 1 (m / d) ≡ leb d m
quotient m d h = ground (arith, quotient_iff m d h)

-- A new position of an episode that does not count as listened to.
positioned :
    (e : PodcastEpisode) (n : ℕ)
    → e.listened ≡ false
    → (set_position e (pos n)).0 ≡ record e {
      item = record e.item { position = n };
      listened = not (e.duration == 0) && leb e.duration (25 * n);
    }
unfolding set_position
positioned e n h = ground (arith, quotient (25 * n) e.duration)

-- The calls of PodcastEpisode::from_json_object, with what it read.
unfoldable pub build_episode :
    String → String → ℤ → ℤ → Option ℕ → String → String → String → ℕ → ℕ → PodcastEpisode
build_episode title url duration position date publisher desc guid uid now =
    let e₁ = (set_duration (new_episode title url uid now) duration).0 in
    let e₂ = with_date date (set_position e₁ position).0 in
    set_guid (set_description (set_publisher e₂ publisher).0 desc).0 guid

built :
    (title url : String) (d p t : ℕ) (publisher desc guid : String) (uid now : ℕ)
    → build_episode title url (pos d) (pos p) (some t) publisher desc guid uid now ≡ record {
      item = record (new_item title url uid) { title = title; publisher = publisher; position = p };
      description = desc;
      guid = guid;
      publication_date = t;
      duration = d;
      listened = not (d == 0) && leb d (25 * p);
    }
unfolding build_episode set_title set_duration set_publisher set_description set_guid
built title url d p t publisher desc guid uid now =
    let e : PodcastEpisode = (set_duration (new_episode title url uid now) (pos d)).0 in
    rw (positioned e p refl) refl

module _ {Object Value : Type 0} (json : Json Object Value) where
  open json use {is_empty, value, insert, empty, of_string, of_int, to_string, to_int}

  module _ (texts : Texts) where
    read_item : Object → String → Option PlayableItem
    read_item o fresh = do
      url ← texts.url_from_encoded (to_string (value o "url") "")
      id ← texts.uuid_from_string (to_string (value o "id") fresh)
      some (new_item (to_string (value o "name") "") url id)

    -- `fresh` is the text of the UUID that QUuid::createUuid made.
    unfoldable pub item_from_json_object : Object → String → Option PlayableItem
    unfolding read_item
    item_from_json_object o fresh = if is_empty o then none else read_item o fresh

    unfoldable pub item_to_json_object : PlayableItem → Object
    item_to_json_object i =
        let o₁ = insert empty "name" (of_string i.display_name) in
        let o₂ = insert o₁ "url" (of_string i.media_url) in
        insert o₂ "id" (of_string (texts.uuid_to_string i.id))

    written_item :
        (i : PlayableItem)
        → (is_empty (item_to_json_object i) ≡ false)
          × (value (item_to_json_object i) "name" ≡ of_string i.display_name)
          × (value (item_to_json_object i) "url" ≡ of_string i.media_url)
          × (value (item_to_json_object i) "id" ≡ of_string (texts.uuid_to_string i.id))
    unfolding item_to_json_object
    written_item i = (simp json_laws, simp json_laws, simp json_laws, simp json_laws)

    -- A station with a UUID and a valid URL, written and read back, keeps its id, name and URL.
    pub item_round_trip :
        (i : PlayableItem) (fresh : String)
        → i.id ≢ 0
        → texts.url_from_encoded i.media_url ≡ some i.media_url
        → item_from_json_object (item_to_json_object i) fresh
          ≡ some (new_item i.display_name i.media_url i.id)
    unfolding item_from_json_object
    item_round_trip i fresh id url = ground (
      arith,
      written_item i,
      json.to_string-of_string (texts.uuid_to_string i.id) fresh,
      json.to_string-of_string i.media_url "",
      json.to_string-of_string i.display_name "",
      texts.uuid_round_trip i.id id,
    )

  module _ (date_from_string : String → Option ℕ) (date_to_string : ℕ → String) where
    -- `uid` is the number of a new UUID.
    unfoldable pub episode_from_json_object : Object → ℕ → ℕ → PodcastEpisode
    episode_from_json_object o uid now =
        build_episode (to_string (value o "title") "") (to_string (value o "url") "")
          (to_int (value o "duration") (pos 1)) (to_int (value o "position") (pos 0))
          (date_from_string (to_string (value o "publication_date") ""))
          (to_string (value o "publisher") "") (to_string (value o "description") "")
          (to_string (value o "id") "") uid now

    unfoldable pub episode_to_json_object : PodcastEpisode → Object
    episode_to_json_object e =
        let o₁ = insert empty "title" (of_string e.title) in
        let o₂ = insert o₁ "url" (of_string e.media_url) in
        let o₃ = insert o₂ "duration" (of_int (pos e.duration)) in
        let o₄ = insert o₃ "position" (of_int (pos e.position)) in
        let o₅ = insert o₄ "id" (of_string (get_guid e)) in
        let o₆ = insert o₅ "publication_date" (of_string (date_to_string e.publication_date)) in
        let o₇ = insert o₆ "description" (of_string e.description) in
        insert o₇ "publisher" (of_string e.publisher)

    written_texts :
        (e : PodcastEpisode)
        → (value (episode_to_json_object e) "title" ≡ of_string e.title)
          × (value (episode_to_json_object e) "url" ≡ of_string e.media_url)
          × (value (episode_to_json_object e) "publication_date"
              ≡ of_string (date_to_string e.publication_date))
          × (value (episode_to_json_object e) "publisher" ≡ of_string e.publisher)
          × (value (episode_to_json_object e) "description" ≡ of_string e.description)
          × (value (episode_to_json_object e) "id" ≡ of_string (get_guid e))
    unfolding episode_to_json_object
    written_texts e = (
      simp json_laws,
      simp json_laws,
      simp json_laws,
      simp json_laws,
      simp json_laws,
      simp json_laws,
    )

    written_numbers :
        (e : PodcastEpisode)
        → (value (episode_to_json_object e) "duration" ≡ of_int (pos e.duration))
          × (value (episode_to_json_object e) "position" ≡ of_int (pos e.position))
    unfolding episode_to_json_object
    written_numbers e = (simp json_laws, simp json_laws)

    -- An episode whose duration and position fit an int and whose date can be read back keeps, when
    -- written and read back, its texts, its date, its duration and its position; its guid is the
    -- effective one, and it counts as listened to exactly if its position says so.
    pub episode_round_trip :
        (e : PodcastEpisode) (uid now : ℕ)
        → e.duration < 2 ^ 31
        → e.position < 2 ^ 31
        → date_from_string (date_to_string e.publication_date) ≡ some e.publication_date
        → episode_from_json_object (episode_to_json_object e) uid now ≡ record e {
          item = record e.item { id = uid; display_name = e.title; seekable = false };
          guid = get_guid e;
          listened = not (e.duration == 0) && leb e.duration (25 * e.position);
        }
    unfolding episode_from_json_object
    episode_round_trip e uid now duration position date =
        let (title, url, published, publisher, desc, id) = written_texts e in
        let (len, at) = written_numbers e in
        rw
          (
            title,
            url,
            published,
            publisher,
            desc,
            id,
            len,
            at,
            json.to_string-of_string e.title "",
            json.to_string-of_string e.media_url "",
            json.to_string-of_string (date_to_string e.publication_date) "",
            json.to_string-of_string e.publisher "",
            json.to_string-of_string e.description "",
            json.to_string-of_string (get_guid e) "",
            json.to_int-of_int (pos e.duration) (pos 1) duration,
            json.to_int-of_int (pos e.position) (pos 0) position,
            date,
          )
          (built e.title e.media_url e.duration e.position e.publication_date e.publisher
            e.description (get_guid e) uid now)
