-- ===== src/Podcast/Cache/Writes.antt =====
-- The delayed write of the cache file: PodcastSource::dataChanged is connected to
-- PodcastSerializer::delayed_write, and the timeout of the timer to PodcastSerializer::write.
use digital_rooster_gui.Base.{
  ℕ, ◌≡◌, refl, Bool, true, false, ◌||◌, List, [], ◌∷◌, Option, none, some, if◌then◌else◌, arith,
  inl, inr, ◌⊎◌,
}
use digital_rooster_gui.Json.{Json, Texts, Trees}
use digital_rooster_gui.Podcast.{PodcastSource, Effect}
use digital_rooster_gui.Podcast.Cache.{Dates, Writer, idle, waiting, delayed_write, store_to_file}

pub record Cached (Object : Type 0) : Type 0 where
  pub source : PodcastSource
  pub writer : Writer
  pub file : Option Object

abbrev pub Call : Type 0
Call = PodcastSource → PodcastSource × List Effect

is_data_changed : Effect → Bool
is_data_changed Effect.data_changed = true
is_data_changed _ = false

is_delete : Effect → Bool
is_delete Effect.delete_cached_info = true
is_delete _ = false

writer-cases : (w : Writer) → (w ≡ idle) ⊎ (w ≡ waiting)
writer-cases idle = inl refl
writer-cases waiting = inr refl

abbrev any : (Effect → Bool) → List Effect → Bool
any test [] = false
any test (e ∷ es) = test e || any test es

unfoldable pub has_data_changed : List Effect → Bool
unfolding is_data_changed
has_data_changed es = any is_data_changed es

unfoldable pub deletes : List Effect → Bool
unfolding is_delete
deletes es = any is_delete es

module _ {D Object Value : Type 0} (json : Json Object Value) (trees : Trees D Object Value json)
    (texts : Texts) (dates : Dates) where
  -- A method of the source with what its effects do to the serializer.
  unfoldable pub call : Call → Cached Object → Cached Object
  call f c =
      let (s, effects) = f c.source in
      record {
        source = s;
        writer = if has_data_changed effects then delayed_write c.writer else c.writer;
        file = if deletes effects then none else c.file;
      }

  unfoldable pub calls : List Call → Cached Object → Cached Object
  calls [] c = c
  calls (f ∷ fs) c = calls fs (call f c)

  written : Writer → ℕ → Cached Object → Cached Object
  written idle now c = c
  written waiting now c = record c {
    writer = idle;
    file = some (store_to_file json trees texts dates now c.source);
  }

  -- The timeout of the timer, which runs while the serializer waits.
  unfoldable pub timeout : ℕ → Cached Object → Cached Object
  unfolding written
  timeout now c = written c.writer now c

  call-waits : (f : Call) (c : Cached Object) → c.writer ≡ waiting → (call f c).writer ≡ waiting
  unfolding call delayed_write
  call-waits f c h = ground arith

  calls-wait :
      (fs : List Call) (c : Cached Object) → c.writer ≡ waiting → (calls fs c).writer ≡ waiting
  unfolding calls
  calls-wait [] c h = h
  calls-wait (f ∷ fs) c h = calls-wait fs (call f c) (call-waits f c h)

  call-starts :
      (f : Call) (c : Cached Object)
      → has_data_changed (f c.source).1 ≡ true
      → (call f c).writer ≡ waiting
  unfolding call delayed_write
  call-starts f c h = elim (writer-cases c.writer) [
    | inl e ↦ rw (h, e) refl
    | inr e ↦ rw (h, e) refl
  ]

  -- Once a call has announced a change, whatever calls follow it, the next timeout writes the source
  -- as it then is, and the serializer waits no longer.
  pub change_saved :
      (f : Call) (fs : List Call) (now : ℕ) (c : Cached Object)
      → has_data_changed (f c.source).1 ≡ true
      → let c' = calls (f ∷ fs) c in
        ((timeout now c').file ≡ some (store_to_file json trees texts dates now c'.source))
        × ((timeout now c').writer ≡ idle)
        × ((timeout now c').source ≡ c'.source)
  unfolding calls timeout
  change_saved f fs now c h =
      let waits = calls-wait fs (call f c) (call-starts f c h) in rw waits (refl, refl, refl)
