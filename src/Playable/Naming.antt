-- ===== src/Playable/Naming.antt =====
-- The display name of an episode.
use text.Mathlib.TextLemmas.{append-ne-nil_of_right_ne-nil}
use digital_rooster_gui.Base.{◌≡◌, ◌≢◌, ◌↔◌, String, arith, append, eq_iff}
use digital_rooster_gui.Playable.{PodcastEpisode, do_get_display_name}

joined : (p t : String) → t ≢ "" → append (append p ": ") t ≢ ""
joined p t h = append-ne-nil_of_right_ne-nil (append p ": ") h

-- An episode has an empty display name exactly if its title, publisher and given name are empty.
pub do_get_display_name_empty :
    (e : PodcastEpisode)
    → (do_get_display_name e ≡ "") ↔ ((e.title ≡ "") × (e.publisher ≡ "") × (e.display_name ≡ ""))
unfolding do_get_display_name
do_get_display_name_empty e = (
  λ h. ground (arith, eq_iff e.title "", eq_iff e.publisher "", joined e.publisher e.title),
  λ h. ground (arith, eq_iff e.title "", eq_iff e.publisher ""),
)
