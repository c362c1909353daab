-- ===== src/Player/Session.antt =====
-- A session of the player: the calls of libsrc/mediaplayer.cpp, and the signals of QMediaPlayer with
-- the handlers of libsrc/mediaplayerproxy.cpp, one after another.
pub mod Safety
use digital_rooster_gui.Base.{
  ℕ, String, Bool, true, false, List, [], ◌∷◌, ◌++◌, map, Option, none, some,
}
use digital_rooster_gui.Base.Int.{ℤ}
use digital_rooster_gui.Double.{Double}
use digital_rooster_gui.Player
use digital_rooster_gui.Player.{
  Player, Effect, on_media_changed, on_position_changed, on_seekable_changed,
  on_meta_data_available, do_set_position,
}

-- What QMediaPlayer says when it is asked.
pub record Backend : Type 0 where
  pub position : ℤ
  pub duration : ℤ
  pub is_seekable : Bool
  pub is_muted : Bool
  pub media_status : ℕ
  pub state : ℕ
  pub error : ℕ

unfoldable pub seekable : Backend → Bool
seekable b = b.is_seekable

unfoldable pub muted : Backend → Bool
muted b = b.is_muted

unfoldable pub get_position : Backend → ℤ
get_position b = b.position

unfoldable pub get_duration : Backend → ℤ
get_duration b = b.duration

unfoldable pub media_status : Backend → ℕ
media_status b = b.media_status

unfoldable pub playback_state : Backend → ℕ
playback_state b = b.state

unfoldable pub error : Backend → ℕ
error b = b.error

-- The signals of QMediaPlayer.
pub data Report : Type 0 where
  media_changed : Report
  position_changed duration_changed : ℤ → Report
  seekable_changed muted_changed : Bool → Report
  state_changed media_status_changed error_reported : ℕ → Report
  meta_data_available_changed : Bool → String → String → Report

-- The methods of MediaPlayer that change something.
pub data Call (D : Type 0) : Type 0 where
  sets_media sets_playlist : ℕ → Call D
  sets_position seeks : ℤ → Call D
  sets_muted : Bool → Call D
  sets_volume increments_volume : D → Call D
  plays pauses stops : Call D

-- A call, with the backend as it is then, or a signal of the backend.
pub data Event (D : Type 0) : Type 0 where
  calls : Backend → Call D → Event D
  reports : Report → Event D

module _ {D : Type 0} where
  unfoldable pub get_volume : Player D → D
  get_volume p = p.linear_volume

  unfoldable pub set_position : Player D → ℤ → List (Effect D)
  unfolding do_set_position
  set_position p position = do_set_position position

  relayed : Player D → Effect D → Option (Player D × List (Effect D))
  relayed p e = some (p, e ∷ [])

  -- The handlers that the constructor connects.
  unfoldable pub on_report : Player D → Report → Option (Player D × List (Effect D))
  unfolding relayed
  on_report p media_changed = on_media_changed p
  on_report p (position_changed position) = some (on_position_changed p position)
  on_report p (seekable_changed b) = on_seekable_changed p b
  on_report p (meta_data_available_changed available title publisher) =
      on_meta_data_available p available title publisher
  on_report p (error_reported err) = relayed p (Player.error err)
  on_report p (muted_changed b) = relayed p (Player.muted_changed b)
  on_report p (state_changed state) = relayed p (Player.playback_state_changed state)
  on_report p (duration_changed duration) = relayed p (Player.duration_changed duration)
  on_report p (media_status_changed status) = relayed p (Player.media_status_changed status)

  module _ (f : Double D) (convert : D → D) where
    unfoldable pub call : Player D → Backend → Call D → Player D × List (Effect D)
    call p b (sets_media media) = Player.set_media p media
    call p b (sets_playlist playlist) = (p, Player.set_playlist p playlist)
    call p b (sets_position position) = (p, set_position p position)
    call p b (seeks incr) = (p, Player.seek p (seekable b) (get_position b) incr)
    call p b (sets_muted on) = (p, Player.set_muted p on)
    call p b (sets_volume volume) = Player.set_volume f convert p volume
    call p b (increments_volume increment) = Player.increment_volume f convert p increment
    call p b plays = (p, Player.play p)
    call p b pauses = (p, Player.pause p)
    call p b stops = Player.stop p

    unfoldable pub handle : Player D → Event D → Option (Player D × List (Effect D))
    handle p (calls b c) = some (call p b c)
    handle p (reports r) = on_report p r

    then :
        Option (Player D × List (Effect D))
        → (Player D → Option (Player D × List (Effect D)))
        → Option (Player D × List (Effect D))
    then none k = none
    then (some (p, first)) k = elim (k p) [
      | none ↦ none
      | some (p', rest) ↦ some (p', first ++ rest)
    ]

    unfoldable pub run : Player D → List (Event D) → Option (Player D × List (Effect D))
    unfolding then
    run p [] = some (p, [])
    run p (e ∷ es) = then (handle p e) (λ q. run q es)
