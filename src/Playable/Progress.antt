-- ===== src/Playable/Progress.antt =====
-- When an episode counts as listened to.
use digital_rooster_gui.Base.{ℕ, ◌*◌, ◌/◌, ◌≤◌, ◌≡◌, ◌≢◌, ◌↔◌, true, false, arith}
use digital_rooster_gui.Base.Int.{ℤ, pos, negsuc}
use digital_rooster_gui.Playable.{PodcastEpisode, set_position}

pub quotient_iff : (m d : ℕ) → d ≢ 0 → (1 ≤ m / d) ↔ (d ≤ m)
quotient_iff m d h = (λ k. grind arith, λ k. grind arith)

-- For an episode of known duration that does not count as listened to, a new position marks it
-- exactly if 25 times the position is at least the duration, which is at 4 per cent of it.
pub set_position_listened :
    (e : PodcastEpisode) (n : ℕ)
    → e.duration ≢ 0
    → e.listened ≡ false
    → ((set_position e (pos n)).0.listened ≡ true) ↔ (e.duration ≤ 25 * n)
unfolding set_position
set_position_listened e n known fresh = (
  λ h. ground (arith, quotient_iff (25 * n) e.duration),
  λ h. ground (arith, quotient_iff (25 * n) e.duration),
)

-- No new position takes the mark away, a negative one does not move the episode, and an episode
-- of unknown duration is not marked.
pub set_position_keeps :
    (e : PodcastEpisode) (z : ℤ)
    → (e.listened ≡ true → (set_position e z).0.listened ≡ true)
      × ((n : ℕ) → z ≡ negsuc n → (set_position e z).0.position ≡ e.position)
      × (e.duration ≡ 0 → (set_position e z).0.listened ≡ e.listened)
unfolding set_position
set_position_keeps e (pos n) = (λ h. ground arith, λ m h. ground arith, λ h. ground arith)
set_position_keeps e (negsuc n) = (λ h. ground arith, λ m h. ground arith, λ h. ground arith)
