-- ===== src/Models/Episodes.antt =====
-- qtgui/podcastepisodemodel.cpp. The model has a pointer to the episodes of a source, `none` if it is
-- null. The texts of a duration and of a date are QTime's and QDateTime's, `none` for a date that is
-- not valid; the removal of HTML tags is QRegExp's.
use digital_rooster_gui.Base.{ℕ, zero, String, Bool, List, ◌++◌, Option, none, some, length}
use digital_rooster_gui.Base.Int.{ℤ, pos}
use digital_rooster_gui.Playable.{PodcastEpisode, do_get_display_name}
use digital_rooster_gui.Player
use digital_rooster_gui.Player.{Player, Effect}
use digital_rooster_gui.Models.Rows.{at, guarded}

pub data Role : Type 0 where
  display_name_role title_role publisher_role duration_role current_position_role : Role
  description_role date_role listened_role other_role : Role

pub data Variant : Type 0 where
  a_text : String → Variant
  a_number : ℤ → Variant
  a_flag : Bool → Variant

-- What the model uses of Qt.
pub record Texts : Type 0 where
  pub duration_text : ℕ → String
  pub date_text : ℕ → Option String
  pub without_tags : String → String

abbrev pub field : Texts → Role → PodcastEpisode → Option Variant
field t display_name_role e = some (a_text (do_get_display_name e))
field t title_role e = some (a_text e.title)
field t publisher_role e = some (a_text e.publisher)
field t duration_role e = some (a_text (t.duration_text e.duration))
field t current_position_role e = some (a_number (pos e.position))
field t description_role e = some (a_text (t.without_tags e.description))
field t date_role e = elim (t.date_text e.publication_date) [
  | none ↦ none
  | some d ↦ some (a_text d)
]
field t listened_role e = some (a_flag e.listened)
field t other_role e = none

unfoldable pub row_count : Option (List PodcastEpisode) → ℕ
row_count none = zero
row_count (some episodes) = length episodes

-- The outer `none` is an exception.
unfoldable pub data_of : Texts → Option (List PodcastEpisode) → ℤ → Role → Option (Option Variant)
data_of t none row role = some none
data_of t (some episodes) row role = guarded episodes row none (field t role)

-- `none` is std::out_of_range; the pointer to the episodes is not tested here.
unfoldable pub get_episode : List PodcastEpisode → ℤ → Option PodcastEpisode
get_episode episodes index = at episodes index

module _ {D : Type 0} where
  sent : Player D → Option ℕ → Option (Player D × List (Effect D))
  sent p none = none
  sent p (some e) = let (p', effects) = Player.set_media p e in some (p', effects ++ Player.play p')

  -- Over the pointers to the episodes, by which the player knows them.
  unfoldable pub send_to_player : Player D → List ℕ → ℤ → Option (Player D × List (Effect D))
  unfolding sent
  send_to_player p episodes index = sent p (at episodes index)
