-- ===== src/Player.antt =====
-- libsrc/mediaplayer.cpp and libsrc/mediaplayerproxy.cpp: the player, the handlers of QMediaPlayer's
-- signals, and the items that it plays. Items are shared objects, so `items` maps a pointer to its
-- item. A method returns the new player and its effects, in order; `none` is the use of a null
-- pointer. QAudio::convertVolume is the parameter `convert`.
pub mod Positions
pub mod Volume
pub mod Session
use digital_rooster_gui.Base.{
  ℕ, String, Bool, true, false, not, ◌&&◌, List, [], ◌∷◌, ◌++◌, map, Option, none, some, str_eq,
  ◌==◌, if◌then◌else◌,
}
use digital_rooster_gui.Base.Int.{ℤ, pos, ◌+ℤ◌}
use digital_rooster_gui.Double.{Double, clamp}
use digital_rooster_gui.Playable
use digital_rooster_gui.Playable.{PlayableItem, PodcastEpisode, set_item_position, set_position}

-- The dynamic type of an item decides which set_position runs.
pub data Item : Type 0 where
  stream : PlayableItem → Item
  episode : PodcastEpisode → Item

abbrev pub base : Item → PlayableItem
base (stream i) = i
base (episode e) = e.item

pub data Effect (D : Type 0) : Type 0 where
  item_signal : ℕ → Playable.Signal → Effect D
  media_changed : Effect D
  position_changed : ℤ → Effect D
  seekable_changed : Bool → Effect D
  volume_changed : D → Effect D
  backend_media : String → Effect D
  backend_position : ℤ → Effect D
  backend_volume : ℤ → Effect D
  backend_playlist : ℕ → Effect D
  backend_muted : Bool → Effect D
  backend_play backend_pause backend_stop : Effect D
  error playback_state_changed media_status_changed : ℕ → Effect D
  muted_changed : Bool → Effect D
  duration_changed : ℤ → Effect D

pub record Player (D : Type 0) : Type 0 where
  pub items : ℕ → Item
  pub current_item : Option ℕ
  pub position_updateable : Bool
  pub linear_volume : D

-- The heap with the item at `p` replaced.
abbrev pub at : (ℕ → Item) → ℕ → Item → ℕ → Item
at items p i q = if p == q then i else items q

unfoldable pub move_item : Item → ℤ → Item × List Playable.Signal
move_item (stream i) z = let (i', ss) = set_item_position i z in (stream i', ss)
move_item (episode e) z = let (e', ss) = set_position e z in (episode e', ss)

unfoldable pub with_seekable : Item → Bool → Item
with_seekable (stream i) b = stream (Playable.set_seekable i b)
with_seekable (episode e) b = episode (record e { item = Playable.set_seekable e.item b })

titled : Item → String → Item × List Playable.Signal
titled (stream i) t = (
  stream (record i { title = t }),
  Playable.display_name_changed i.display_name ∷ Playable.data_changed ∷ [],
)
titled (episode e) t = let (e', ss) = Playable.set_title e t in (episode e', ss)

published : Item → String → Item × List Playable.Signal
published (stream i) t = (
  stream (record i { publisher = t }),
  Playable.display_name_changed i.display_name ∷ Playable.data_changed ∷ [],
)
published (episode e) t = let (e', ss) = Playable.set_publisher e t in (episode e', ss)

module _ {D : Type 0} where
  unfoldable pub enable_position_update : Player D → Bool → Player D
  enable_position_update p enable = record p { position_updateable = enable }

  do_set_position : ℤ → List (Effect D)
  do_set_position position = backend_position position ∷ []

  mark_seekable : Player D → ℕ → Bool → Player D
  mark_seekable p c b = record p { items = at p.items c (with_seekable (p.items c) b) }

  -- The handler of mediaChanged.
  unfoldable pub on_media_changed : Player D → Option (Player D × List (Effect D))
  unfolding mark_seekable
  on_media_changed p = elim p.current_item [
    | none ↦ none
    | some c ↦ some (mark_seekable p c false, media_changed ∷ [])
  ]

  move_current : Player D → Option ℕ → ℤ → Player D × List (Effect D)
  move_current p none z = (p, [])
  move_current p (some c) z =
      let (i, ss) = move_item (p.items c) z in
      if p.position_updateable
      then (record p { items = at p.items c i }, map (λ s. item_signal c s) ss)
      else (p, [])

  -- The handler of positionChanged.
  unfoldable pub on_position_changed : Player D → ℤ → Player D × List (Effect D)
  unfolding move_current
  on_position_changed p position =
      let (p', effects) = move_current p p.current_item position in
      (p', position_changed position ∷ effects)

  seekable_item : Player D → Bool → Option ℕ → Option (Player D × List (Effect D))
  seekable_item p seekable none = none
  seekable_item p seekable (some c) =
      let p' = enable_position_update (mark_seekable p c seekable) seekable in
      some (
        p',
        seekable_changed seekable
            ∷ (if seekable then do_set_position (pos (base (p'.items c)).position) else []),
      )

  -- The handler of seekableChanged.
  unfoldable pub on_seekable_changed : Player D → Bool → Option (Player D × List (Effect D))
  unfolding seekable_item enable_position_update mark_seekable do_set_position
  on_seekable_changed p seekable = seekable_item p seekable p.current_item

  -- `current_item->set_title` or `set_publisher`, unless the text is empty.
  retext :
      (Item → String → Item × List Playable.Signal)
      → String
      → Option ℕ
      → Player D
      → Option (Player D × List (Effect D))
  retext f t none p = if str_eq t "" then some (p, []) else none
  retext f t (some c) p =
      let (i, ss) = f (p.items c) t in
      if str_eq t ""
      then some (p, [])
      else some (record p { items = at p.items c i }, map (λ s. item_signal c s) ss)

  also :
      Option (Player D × List (Effect D))
      → (Player D → Option (Player D × List (Effect D)))
      → Option (Player D × List (Effect D))
  also none f = none
  also (some (p, first)) f = elim (f p) [
    | none ↦ none
    | some (p', second) ↦ some (p', first ++ second)
  ]

  -- The handler of metaDataAvailableChanged, with the meta data of the backend.
  unfoldable pub on_meta_data_available :
      Player D → Bool → String → String → Option (Player D × List (Effect D))
  unfolding retext also titled published
  on_meta_data_available p false title publisher = some (p, [])
  on_meta_data_available p true title publisher =
      also (retext titled title p.current_item p) (retext published publisher p.current_item)

  unfoldable pub set_playlist : Player D → ℕ → List (Effect D)
  set_playlist p playlist = backend_playlist playlist ∷ []

  unfoldable pub set_muted : Player D → Bool → List (Effect D)
  set_muted p muted = backend_muted muted ∷ []

  unfoldable pub play : Player D → List (Effect D)
  play p = backend_play ∷ []

  unfoldable pub pause : Player D → List (Effect D)
  pause p = backend_pause ∷ []

  unfoldable pub set_media : Player D → ℕ → Player D × List (Effect D)
  unfolding do_set_position
  set_media p media =
      let previous_position = (base (p.items media)).position in
      (
        record p { current_item = some media },
        backend_media (base (p.items media)).media_url
            ∷ (if previous_position == 0 then [] else do_set_position (pos previous_position)),
      )

  unfoldable pub stop : Player D → Player D × List (Effect D)
  unfolding enable_position_update
  stop p = (enable_position_update p false, backend_stop ∷ [])

  -- `seekable` and `position` are what the backend says.
  unfoldable pub seek : Player D → Bool → ℤ → ℤ → List (Effect D)
  unfolding do_set_position
  seek p seekable position incr = if seekable then do_set_position (position +ℤ incr) else []

  module _ (f : Double D) (convert : D → D) where
    do_set_volume : Player D → D → Player D × List (Effect D)
    do_set_volume p volume =
        let adjusted_volume = convert (f.div volume (f.ratio 100 1)) in
        (
          record p { linear_volume = volume },
          volume_changed volume
              ∷ backend_volume (f.round (f.mul adjusted_volume (f.ratio 100 1)))
              ∷ [],
        )

    unfoldable pub set_volume : Player D → D → Player D × List (Effect D)
    unfolding do_set_volume
    set_volume p volume = do_set_volume p (clamp f.less volume (f.ratio 0 1) (f.ratio 100 1))

    unfoldable pub increment_volume : Player D → D → Player D × List (Effect D)
    increment_volume p increment = set_volume p (f.add p.linear_volume increment)
