-- ===== src/Podcast/Stored.antt =====
-- The configuration entry of a podcast source: from_json_object and to_json_object of
-- libsrc/PodcastSource.cpp. Nothing is connected to a new source, so its signals are left out.
use digital_rooster_gui.Base.{
  ap, ℕ, suc, ◌<◌, ◌^◌, ◌≡◌, ◌≢◌, refl, String, false, [], Option, none, some, if◌then◌else◌,
}
use digital_rooster_gui.Base.Int.{ℤ, pos, InInt32}
use digital_rooster_gui.Json.{Json, Texts, json_laws}
use digital_rooster_gui.Podcast.{
  PodcastSource, default_max_episodes, set_title, set_description, set_max_episodes,
  set_update_interval, set_update_task,
}
use digital_rooster_gui.Podcast.Icon.{Files, set_image_url, set_image_file_path}

infixl 5 ◌>>=◌
abbrev ◌>>=◌ : {A B : Type 0} → Option A → (A → Option B) → Option B
none >>= f = none
some a >>= f = f a

-- The constructor from the URL; `invalid_date` stands for the invalid QDateTime of last_updated.
abbrev pub new_source : ℕ → String → ℕ → PodcastSource
new_source invalid_date url uid = record {
  id = uid;
  rss_feed_uri = url;
  title = "";
  description = "";
  episodes = [];
  last_updated = invalid_date;
  link = "";
  icon_url = "";
  image_file_path = "";
  max_episodes = default_max_episodes;
  update_interval = pos 3600;
  updater = none;
  serializer = false;
}

-- The exception of set_max_episodes is caught.
abbrev limited : PodcastSource → ℤ → PodcastSource
limited s max = elim (set_max_episodes s max) [ none ↦ s | some s' ↦ s' ]

-- What the entry says.
pub record Entry : Type 0 where
  pub title : String
  pub desc : String
  pub img_url : String
  pub img_cached : String
  pub max : ℤ
  pub interval : ℤ

module _ (file_name : String → String) (local_name : String → String)
    (in_cache : String → String) where
  -- The setters of from_json_object, in their order.
  unfoldable pub fill : Files → PodcastSource → Entry → Files × PodcastSource
  fill files s e =
      let s₁ = (set_description (set_title s e.title).0 e.desc).0 in
      let s₂ = (set_image_url file_name local_name in_cache files s₁ e.img_url).0 in
      let (files', s₃, _) = set_image_file_path files s₂ e.img_cached in
      (files', set_update_task (set_update_interval (limited s₃ e.max) e.interval))

  module _ {Object Value : Type 0} (json : Json Object Value) (texts : Texts)
      (invalid_date : ℕ) where
    open json use {is_empty, value, insert, empty, of_string, of_int, to_string, to_int}

    entry : Object → Entry
    entry o = record {
      title = to_string (value o "title") "";
      desc = to_string (value o "description") "";
      img_url = to_string (value o "icon") "";
      img_cached = to_string (value o "icon-cached") "";
      max = to_int (value o "maxEpisodes") (pos default_max_episodes);
      interval = to_int (value o "updateInterval") (pos 3600);
    }

    read_source : Files → Object → String → Option (Files × PodcastSource)
    unfolding entry
    read_source files o fresh = do
      id ← texts.uuid_from_string (to_string (value o "id") fresh)
      url ← texts.url_from_encoded (to_string (value o "url") "")
      some (fill files (new_source invalid_date url id) (entry o))

    unfoldable pub from_json_object : Files → Object → String → Option (Files × PodcastSource)
    unfolding read_source
    from_json_object files o fresh = if is_empty o then none else read_source files o fresh

    unfoldable pub to_json_object : PodcastSource → Object
    to_json_object s =
        let o₁ = insert empty "id" (of_string (texts.uuid_to_string s.id)) in
        let o₂ = insert o₁ "url" (of_string s.rss_feed_uri) in
        let o₃ = insert o₂ "title" (of_string s.title) in
        let o₄ = insert o₃ "maxEpisodes" (of_int (pos s.max_episodes)) in
        insert o₄ "updateInterval" (of_int s.update_interval)

    written_texts :
        (s : PodcastSource)
        → (is_empty (to_json_object s) ≡ false)
          × (value (to_json_object s) "id" ≡ of_string (texts.uuid_to_string s.id))
          × (value (to_json_object s) "url" ≡ of_string s.rss_feed_uri)
          × (value (to_json_object s) "title" ≡ of_string s.title)
    unfolding to_json_object
    written_texts s = (simp json_laws, simp json_laws, simp json_laws, simp json_laws)

    written_numbers :
        (s : PodcastSource)
        → (value (to_json_object s) "maxEpisodes" ≡ of_int (pos s.max_episodes))
          × (value (to_json_object s) "updateInterval" ≡ of_int s.update_interval)
    unfolding to_json_object
    written_numbers s = (simp json_laws, simp json_laws)

    not_written :
        (s : PodcastSource)
        → (value (to_json_object s) "description" ≡ value empty "description")
          × (value (to_json_object s) "icon" ≡ value empty "icon")
          × (value (to_json_object s) "icon-cached" ≡ value empty "icon-cached")
    unfolding to_json_object
    not_written s = (simp json_laws, simp json_laws, simp json_laws)

    filled :
        (files : Files) (url title : String) (uid n : ℕ) (interval : ℤ)
        → files "" ≡ false
        → fill files (new_source invalid_date url uid) (record {
          title = title;
          desc = "";
          img_url = "";
          img_cached = "";
          max = pos (suc n);
          interval = interval;
        })
          ≡ (
            files,
            record (new_source invalid_date url uid) {
              title = title;
              max_episodes = suc n;
              update_interval = interval;
              updater = some interval;
            },
          )
    unfolding fill set_title set_description set_image_url set_image_file_path set_max_episodes
        set_update_interval set_update_task
    filled files url title uid n interval h = rw h refl

    -- A source with a UUID, a valid URL, a positive limit and an interval that both fit an int keeps,
    -- when its entry is written and read back, its id, URL, title, limit and interval, and gets an
    -- update task; its description, icon, link and episodes are not part of the entry.
    pub source_round_trip :
        (files : Files) (s : PodcastSource) (n : ℕ) (fresh : String)
        → files "" ≡ false
        → s.id ≢ 0
        → texts.url_from_encoded s.rss_feed_uri ≡ some s.rss_feed_uri
        → s.max_episodes ≡ suc n
        → s.max_episodes < 2 ^ 31
        → InInt32 s.update_interval
        → from_json_object files (to_json_object s) fresh
          ≡ some (
            files,
            record (new_source invalid_date s.rss_feed_uri s.id) {
              title = s.title;
              max_episodes = s.max_episodes;
              update_interval = s.update_interval;
              updater = some s.update_interval;
            },
          )
    unfolding from_json_object
    source_round_trip files s n fresh none_there id url limit small interval =
        let (full, uid, uri, title) = written_texts s in
        let (max, every) = written_numbers s in
        let (desc, icon, cached) = not_written s in
        rw
          (
            full,
            uid,
            uri,
            title,
            max,
            every,
            desc,
            icon,
            cached,
            json.to_string-of_string (texts.uuid_to_string s.id) fresh,
            json.to_string-of_string s.rss_feed_uri "",
            json.to_string-of_string s.title "",
            json.to_string-missing "description" "",
            json.to_string-missing "icon" "",
            json.to_string-missing "icon-cached" "",
            json.to_int-of_int (pos s.max_episodes) (pos default_max_episodes) small,
            json.to_int-of_int s.update_interval (pos 3600) interval,
            texts.uuid_round_trip s.id id,
            url,
            limit,
          )
          (ap some (filled files s.rss_feed_uri s.title s.id n s.update_interval none_there))
