-- ===== src/Network/Downloads.antt =====
-- Which replies a client waits for.
use digital_rooster_gui.Base.{
  ℕ, ◌<◌, ◌≡◌, ◌≢◌, ◌↔◌, ◌⊎◌, String, List, [], ◌∷◌, ◌++◌, Option, arith, Elem,
}
use digital_rooster_gui.Network.{HttpClient, do_download, remove, download_finished}

abbrev pub idle : HttpClient
idle = record { pending_downloads = []; next_reply = 0 }

-- A client with the replies that have finished: a download is started, or a pending one finishes,
-- with its content or an error.
pub data Reach (A : Type 0) : HttpClient → List ℕ → Type 0 where
  starts : Reach A idle []
  downloads :
      {c : HttpClient} {done : List ℕ}
      → Reach A c done
      → (url : String) → Reach A (do_download c url).0 done
  finishes :
      {c : HttpClient} {done : List ℕ}
      → Reach A c done
      → (reply : ℕ) (content : Option A) → Elem reply c.pending_downloads
      → Reach A (download_finished c reply content).0 (reply ∷ done)

Elem-last : (n r : ℕ) (rs : List ℕ) → Elem n (rs ++ r ∷ []) ↔ (Elem n rs ⊎ (n ≡ r))
Elem-last n r [] = ground arith
Elem-last n r (x ∷ xs) = ground (arith, Elem-last n r xs)

Elem-remove : (n r : ℕ) (rs : List ℕ) → Elem n (remove r rs) ↔ (Elem n rs × (n ≢ r))
unfolding remove
Elem-remove n r [] = ground arith
Elem-remove n r (x ∷ xs) = ground (arith, Elem-remove n r xs)

-- The downloads that were started have the numbers below next_reply.
abbrev pub Waits : HttpClient → List ℕ → Type 0
Waits c done = (n : ℕ) → Elem n c.pending_downloads ↔ ((n < c.next_reply) × ¬ Elem n done)

module _ {A : Type 0} where
  Reach-both :
      {c : HttpClient} {done : List ℕ}
      → Reach A c done
      → ((n : ℕ) → Elem n done → n < c.next_reply) × Waits c done
  unfolding do_download download_finished
  Reach-both starts = (λ n. ground arith, λ n. ground arith)
  Reach-both (downloads {c} r url) =
      let (below, waits) = Reach-both r in
      (
        λ n e. omega (arith, below n e),
        λ n. grind (arith, below n, waits n, Elem-last n c.next_reply c.pending_downloads),
      )
  Reach-both (finishes {c} r reply content e) =
      let (below, waits) = Reach-both r in
      (
        λ n. ground (arith, below n, waits n, (waits reply).0 e),
        λ n. ground (arith, waits n, Elem-remove n reply c.pending_downloads),
      )

  -- In every state that a client can reach, it waits for exactly the downloads that were started and
  -- have not finished, in whatever order they do.
  pub Reach-Waits : {c : HttpClient} {done : List ℕ} → Reach A c done → Waits c done
  Reach-Waits r = (Reach-both r).1
