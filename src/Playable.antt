-- ===== src/Playable.antt =====
-- include/PlayableItem.hpp and libsrc/playableitem.cpp. A method that changes an item returns the
-- new item and what it emits, in order. A QDateTime is kept as an opaque number, a QUrl as its
-- text.
pub mod Progress
pub mod Naming
pub mod Stored
use digital_rooster_gui.Base.{
  ℕ, zero, ◌*◌, ◌/◌, ◌≡◌, String, Bool, true, false, not, ◌&&◌, List, [], ◌∷◌, ◌++◌, ◌==◌, leb,
  str_eq, append, if◌then◌else◌,
}
use digital_rooster_gui.Base.Int.{ℤ, pos, negsuc}

pub data Signal : Type 0 where
  position_updated : ℤ → Signal
  data_changed : Signal
  display_name_changed : String → Signal
  description_changed : String → Signal
  publication_date_changed : ℕ → Signal
  duration_changed : ℤ → Signal
  listened_changed : Bool → Signal

-- A position is never negative: only `set_position` writes it.
pub record PlayableItem : Type 0 where
  pub id : ℕ
  pub display_name : String
  pub title : String
  pub publisher : String
  pub media_url : String
  pub position : ℕ
  pub seekable : Bool

pub record PodcastEpisode : Type 0 where
  pub item : PlayableItem
  pub open item use *
  pub description : String
  pub guid : String
  pub publication_date : ℕ
  pub duration : ℕ
  pub listened : Bool

abbrev pub min_listened_perc : ℕ
min_listened_perc = 25

-- PlayableItem::set_position
unfoldable pub set_item_position : PlayableItem → ℤ → PlayableItem × List Signal
set_item_position i (pos n) =
    (record i { position = n }, position_updated (pos n) ∷ data_changed ∷ [])
set_item_position i (negsuc n) = (i, [])

unfoldable pub set_url : PlayableItem → String → PlayableItem
set_url i url = record i { media_url = url }

unfoldable pub set_display_name : PlayableItem → String → PlayableItem
set_display_name i name = record i { display_name = name }

unfoldable pub set_seekable : PlayableItem → Bool → PlayableItem
set_seekable i seek = record i { seekable = seek }

is_empty : String → Bool
is_empty s = str_eq s ""

-- PodcastEpisode::do_get_display_name
unfoldable pub do_get_display_name : PodcastEpisode → String
unfolding is_empty
do_get_display_name e =
    if is_empty e.title && is_empty e.publisher
    then e.display_name
    else if not (is_empty e.title) && is_empty e.publisher
    then e.title
    else if is_empty e.title && not (is_empty e.publisher)
    then e.publisher
    else append (append e.publisher ": ") e.title

-- set_title and set_publisher of an episode, whose display name is the virtual one above.
unfoldable pub set_title : PodcastEpisode → String → PodcastEpisode × List Signal
set_title e title =
    let e' : PodcastEpisode = record e { item = record e.item { title = title } } in
    (e', display_name_changed (do_get_display_name e') ∷ data_changed ∷ [])

unfoldable pub set_publisher : PodcastEpisode → String → PodcastEpisode × List Signal
set_publisher e publisher =
    let e' : PodcastEpisode = record e { item = record e.item { publisher = publisher } } in
    (e', display_name_changed (do_get_display_name e') ∷ data_changed ∷ [])

unfoldable pub set_description : PodcastEpisode → String → PodcastEpisode × List Signal
set_description e desc =
    (record e { description = desc }, description_changed desc ∷ data_changed ∷ [])

unfoldable pub get_guid : PodcastEpisode → String
unfolding is_empty
get_guid e = if is_empty e.guid then e.media_url else e.guid

unfoldable pub set_guid : PodcastEpisode → String → PodcastEpisode
set_guid e uid = record e { guid = uid }

unfoldable pub set_duration : PodcastEpisode → ℤ → PodcastEpisode × List Signal
set_duration e (pos n) = (record e { duration = n }, duration_changed (pos n) ∷ data_changed ∷ [])
set_duration e (negsuc n) = (e, [])

-- `is_valid` is QDateTime::isValid.
unfoldable pub set_publication_date : (ℕ → Bool) → PodcastEpisode → ℕ → PodcastEpisode × List Signal
set_publication_date is_valid e date =
    if is_valid date
    then (record e { publication_date = date }, publication_date_changed date ∷ data_changed ∷ [])
    else (e, [])

-- What follows the call of the base class in PodcastEpisode::set_position. The products do not
-- overflow the 64 bits of the source below a position of eleven million years.
mark_listened : PodcastEpisode → PodcastEpisode × List Signal
mark_listened e =
    if not (e.duration == 0) && not e.listened
    then (if leb 1 ((min_listened_perc * e.position) / e.duration)
        then (record e { listened = true }, listened_changed true ∷ [])
        else (e, []))
    else (e, [])

unfoldable pub set_position : PodcastEpisode → ℤ → PodcastEpisode × List Signal
unfolding mark_listened set_item_position
set_position e new_val =
    let (i, signals) = set_item_position e.item new_val in
    let (e', more) = mark_listened (record e { item = i }) in (e', signals ++ more)
