-- ===== src/Player/Volume.antt =====
-- The range of the volume.
use digital_rooster_gui.Base.{◌≡◌, false, List, [], ◌∷◌}
use digital_rooster_gui.Double.{Double, clamp_bounds}
use digital_rooster_gui.Player.{Player, set_volume, increment_volume}

-- The two ways to change the volume.
pub data Request (D : Type 0) : Type 0 where
  sets increments : D → Request D

module _ {D : Type 0} (f : Double D) (convert : D → D) where
  unfoldable pub step : Player D → Request D → Player D
  step p (sets v) = (set_volume f convert p v).0
  step p (increments v) = (increment_volume f convert p v).0

  unfoldable pub serve : Player D → List (Request D) → Player D
  serve p [] = p
  serve p (r ∷ rs) = serve (step p r) rs

  -- A percentage.
  abbrev pub IsPercent : D → Type 0
  IsPercent v = (f.less v (f.ratio 0 1) ≡ false) × (f.less (f.ratio 100 1) v ≡ false)

  step-IsPercent : (p : Player D) (r : Request D) → IsPercent (step p r).linear_volume
  unfolding step set_volume increment_volume
  step-IsPercent p (sets v) = clamp_bounds f.less v _ _ f.order f.zero-le-hundred
  step-IsPercent p (increments v) =
      clamp_bounds f.less (f.add p.linear_volume v) _ _ f.order f.zero-le-hundred

  -- A volume that is a percentage stays one, whatever is asked for.
  pub serve-IsPercent :
      (p : Player D) (rs : List (Request D))
      → IsPercent p.linear_volume
      → IsPercent (serve p rs).linear_volume
  unfolding serve
  serve-IsPercent p [] h = h
  serve-IsPercent p (r ∷ rs) h = serve-IsPercent (step p r) rs (step-IsPercent p r)
