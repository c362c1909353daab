-- ===== src/Rest/Items.antt =====
-- REST/RadioApi.cpp and REST/PodcastApi.cpp: the requests for one item, over the store that they
-- take by its interface. A body and a UUID are read as in the requests for alarms.
use digital_rooster_gui.Base.{ℕ, ◌≡◌, refl, ◌∙◌, String, Option, none, some, arith, ==_iff}
use digital_rooster_gui.Json.{Json, Texts}
use digital_rooster_gui.Playable.{PlayableItem}
use digital_rooster_gui.Playable.Stored.{item_from_json_object, item_to_json_object}
use digital_rooster_gui.Podcast.{PodcastSource}
use digital_rooster_gui.Podcast.Icon.{Files}
use digital_rooster_gui.Podcast.Cache.{Dates}
use digital_rooster_gui.Podcast.Stored.{
  to_json_object as podcast_to_json, from_json_object as podcast_from_json,
}
use digital_rooster_gui.Configuration.Maps.{Store, IsMap}
use digital_rooster_gui.Rest.Alarms.{
  Reply, ok_object, ok, bad_request, bad_request_no_item_with_uuid, uid_of,
}

-- What the requests have in common: RadioApi and PodcastApi have the same code.
module _ {C T Object : Type 0} (store : Store C T) where
  answer_get : (T → Object) → Option T → Reply Object
  answer_get write none = bad_request_no_item_with_uuid
  answer_get write (some x) = ok_object (write x)

  get_item : Texts → (T → Object) → C → String → Reply Object
  unfolding answer_get
  get_item texts write c param = answer_get write (store.find c (uid_of texts param))

  answer_add : (T → Object) → C → Option T → C × Reply Object
  answer_add created c none = (c, bad_request)
  answer_add created c (some x) = (store.add c x, ok_object (created x))

  answer_delete : C → Option C → C × Reply Object
  answer_delete c none = (c, bad_request_no_item_with_uuid)
  answer_delete c (some c') = (c', ok)

  delete_item : Texts → C → String → C × Reply Object
  unfolding answer_delete
  delete_item texts c param = answer_delete c (store.delete c (uid_of texts param))

pub read_body : {Object T : Type 0} → (Object → Option T) → Option Object → Option T
read_body read none = none
read_body read (some o) = read o

-- respond_SuccessCreated
created : {Object Value : Type 0} → Json Object Value → Texts → ℕ → Object
created json texts id = json.insert json.empty "id" (json.of_string (texts.uuid_to_string id))

module _ {C Object Value : Type 0} (json : Json Object Value) (texts : Texts) where
  module _ (store : Store C PlayableItem) where
    unfoldable pub get_station : C → String → Reply Object
    unfolding get_item
    get_station c param = get_item store texts (item_to_json_object json texts) c param

    unfoldable pub add_station : (String → Option Object) → C → String → String → C × Reply Object
    unfolding answer_add created read_body
    add_station parse c body fresh =
        answer_add store (λ i. created json texts i.id) c
          (read_body (λ o. item_from_json_object json texts o fresh) (parse body))

    unfoldable pub delete_station : C → String → C × Reply Object
    unfolding delete_item
    delete_station c param = delete_item store texts c param

  -- Reading the entry may remove a file, so the files are part of the state of add_podcast.
  module _ (dates : Dates) (store : Store C PodcastSource) where
    open dates use {file_name, local_name, in_cache, invalid_date}

    unfoldable pub get_podcast : C → String → Reply Object
    unfolding get_item
    get_podcast c param =
        get_item store texts (podcast_to_json file_name local_name in_cache json texts invalid_date)
          c param

    add_read : Files → C → Option (Files × PodcastSource) → Files × C × Reply Object
    unfolding answer_add created
    add_read files c none = (files, c, bad_request)
    add_read files c (some (files', p)) =
        let (c', reply) = answer_add store (λ s. created json texts s.id) c (some p) in
        (files', c', reply)

    unfoldable pub add_podcast :
        (String → Option Object) → Files → C → String → String → Files × C × Reply Object
    unfolding add_read read_body
    add_podcast parse files c body fresh = add_read files c (
        read_body
          (λ o.
            podcast_from_json file_name local_name in_cache json texts invalid_date files o fresh)
          (parse body))

    unfoldable pub delete_podcast : C → String → C × Reply Object
    unfolding delete_item
    delete_podcast c param = delete_item store texts c param

-- What follows from the laws of a store alone: an item that was added under a new UUID is found, and
-- once it is deleted the store is the map that it was.
module _ {C T : Type 0} (store : Store C T) (map : IsMap store) where
  added_found :
      (c : C) (a : T)
      → store.find c (store.id a) ≡ none
      → store.find (store.add c a) (store.id a) ≡ some a
  added_found c a new = ground (arith, map.find-add c a (store.id a))

  added_deleted :
      (c : C) (a : T)
      → store.find c (store.id a) ≡ none
      → (c' : C) × (store.delete (store.add c a) (store.id a) ≡ some c')
        × ((n : ℕ) → store.find c' n ≡ store.find c n)
  added_deleted c a new =
      let (c', done, rest) =
        map.delete-found (store.add c a) (store.id a) a (added_found c a new) in
      (c', done, λ n. ground (arith, rest n, map.find-add c a n, ==_iff (store.id a) n, new))

  module _ {Object : Type 0} (texts : Texts) (write : T → Object) where
    -- What the replies are once an item was added to the store.
    ItemLife : C → C → T → String → Type 0
    ItemLife c c₁ x param =
        let c₂ = (delete_item {Object = Object} store texts c₁ param).0 in
        (get_item store texts write c₁ param ≡ ok_object (write x))
        × ((delete_item {Object = Object} store texts c₁ param).1 ≡ ok)
        × ((n : ℕ) → store.find c₂ n ≡ store.find c n)
        × (get_item store texts write c₂ param ≡ bad_request_no_item_with_uuid)
        × (delete_item {Object = Object} store texts c₂ param ≡ (c₂, bad_request_no_item_with_uuid))

    item_life :
        (c : C) (x : T) (param : String)
        → uid_of texts param ≡ store.id x
        → store.find c (store.id x) ≡ none
        → ItemLife c (store.add c x) x param
    unfolding ItemLife get_item delete_item
    item_life c x param uid new =
        let (c', done, same) = added_deleted c x new in
        let gone : store.find c' (store.id x) ≡ none = same (store.id x) ∙ new in
        rw (uid, added_found c x new, done)
          (refl, refl, same, rw gone, rw (map.delete-missing c' (store.id x) gone))

module _ {C Object Value : Type 0} (json : Json Object Value) (texts : Texts)
    (store : Store C PlayableItem) (map : IsMap store) where
  -- Over any store that is a finite map: a station with a new UUID can be read after it was added,
  -- its deletion is acknowledged and leaves the map as it was before, and from then on reading it
  -- and deleting it again are refused.
  pub station_life :
      (parse : String → Option Object) (c : C) (body fresh param : String) (o : Object)
      (i : PlayableItem)
      → parse body ≡ some o
      → item_from_json_object json texts o fresh ≡ some i
      → uid_of texts param ≡ store.id i
      → store.find c (store.id i) ≡ none
      → let c₁ = (add_station json texts store parse c body fresh).0 in
        let c₂ = (delete_station json texts store c₁ param).0 in
        (get_station json texts store c₁ param ≡ ok_object (item_to_json_object json texts i))
        × ((delete_station json texts store c₁ param).1 ≡ ok)
        × ((n : ℕ) → store.find c₂ n ≡ store.find c n)
        × (get_station json texts store c₂ param ≡ bad_request_no_item_with_uuid)
        × (delete_station json texts store c₂ param ≡ (c₂, bad_request_no_item_with_uuid))
  unfolding add_station get_station delete_station ItemLife
  station_life parse c body fresh param o i parsed read uid new =
      rw (parsed, read)
        (item_life store map texts (item_to_json_object json texts) c i param uid new)

module _ {C Object Value : Type 0} (json : Json Object Value) (texts : Texts) (dates : Dates)
    (store : Store C PodcastSource) (map : IsMap store) where
  open dates use {file_name, local_name, in_cache, invalid_date}

  -- Over any store that is a finite map, a podcast with a new UUID can be read after it was added, its
  -- deletion is acknowledged and leaves the map as it was before, and from then on reading it and
  -- deleting it again are refused with the code 400. Reading its entry may change the files.
  pub podcast_life :
      (parse : String → Option Object) (files files' : Files) (c : C) (body fresh param : String)
      (o : Object) (p : PodcastSource)
      → parse body ≡ some o
      → podcast_from_json file_name local_name in_cache json texts invalid_date files o fresh
        ≡ some (files', p)
      → uid_of texts param ≡ store.id p
      → store.find c (store.id p) ≡ none
      → let r = add_podcast json texts dates store parse files c body fresh in
        let c₂ = (delete_podcast json texts dates store r.1 param).0 in
        (r.0 ≡ files')
        × (get_podcast json texts dates store r.1 param
            ≡ ok_object (podcast_to_json file_name local_name in_cache json texts invalid_date p))
        × ((delete_podcast json texts dates store r.1 param).1 ≡ ok)
        × ((n : ℕ) → store.find c₂ n ≡ store.find c n)
        × (get_podcast json texts dates store c₂ param ≡ bad_request_no_item_with_uuid)
        × (delete_podcast json texts dates store c₂ param ≡ (c₂, bad_request_no_item_with_uuid))
  unfolding add_podcast get_podcast delete_podcast ItemLife
  podcast_life parse files files' c body fresh param o p parsed read uid new =
      let write = podcast_to_json file_name local_name in_cache json texts invalid_date in
      let life = item_life store map texts write c p param uid new in
      rw (parsed, read) (refl, life.0, life.1, life.2, life.3, life.4)
