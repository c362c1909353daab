-- ===== src/Wiring/Remote.antt =====
-- Requests of the REST interface and the dispatcher: qtgui/main.cpp gives the configuration to both.
-- The slot of alarms_changed is queued, since the server has threads of its own; here it has run
-- before the next request.
use digital_rooster_gui.Base.{
  ℕ, ◌≡◌, refl, sym, ap, subst, ◌⊎◌, inl, inr, String, List, [], ◌∷◌, Option, none, some,
  Option-cases,
}
use digital_rooster_gui.Calendar.{Calendar, DateTime}
use digital_rooster_gui.Json.{Json, Texts}
use digital_rooster_gui.Podcast.Icon.{Files}
use digital_rooster_gui.Podcast.Cache.{Dates}
use digital_rooster_gui.Configuration
use digital_rooster_gui.Configuration.{Configuration, Signal, find_by_id, alarm_id}
use digital_rooster_gui.Configuration.Maps.{deletes}
use digital_rooster_gui.Dispatcher
use digital_rooster_gui.Dispatcher.{Dispatcher}
use digital_rooster_gui.Dispatcher.Upcoming.{Armed, Disarmed}
use digital_rooster_gui.Rest.{Stoi}
use digital_rooster_gui.Rest.Alarms
use digital_rooster_gui.Rest.Alarms.{uid_of}
use digital_rooster_gui.Rest.Server.{
  read_list, add, get_one, delete_one, Call, alarms, radios, podcasts, elsewhere, Server, serve,
}
use digital_rooster_gui.Rest.Server.Frame.{serve-Kept}
use digital_rooster_gui.Wiring.Stores.{Clock, config_signals, heap_of, pointers, Follows, checked}

module _ {D Object Value : Type 0} (json : Json Object Value) (texts : Texts) (dates : Dates)
    (stoi : String → Stoi) (parse : String → Option Object) where
  -- The signals of the configuration that a call causes and the dispatcher hears.
  alarm_signals : Configuration D → Call → List Signal
  alarm_signals c (alarms (add body fresh)) =
      elim (Alarms.read_body json texts (parse body) fresh) [
        | none ↦ []
        | some a ↦ (Configuration.add_alarm c a).1
      ]
  alarm_signals c (alarms (delete_one uid)) =
      elim (Configuration.delete_alarm c (uid_of texts uid)) [ none ↦ [] | some r ↦ r.1 ]
  alarm_signals c _ = []

  module _ (cal : Calendar) (now : DateTime) where
    unfoldable pub remote : Files × Clock D → Call → Files × Clock D
    unfolding alarm_signals
    remote (files, k) call =
        let s =
          (serve json texts dates stoi parse (record { files = files; stores = k.configuration })
            call).0 in
        (
          s.files,
          record {
            configuration = s.stores;
            dispatcher =
                config_signals cal now s.stores k.dispatcher (alarm_signals k.configuration call);
          },
        )

    unfoldable pub remotes : Files × Clock D → List Call → Files × Clock D
    remotes w [] = w
    remotes w (call ∷ calls) = remotes (remote w call) calls

    -- Only the alarms matter to the dispatcher.
    same_alarms :
        (c c' : Configuration D) (d : Dispatcher)
        → c'.alarms ≡ c.alarms
        → Follows cal now (record { configuration = c; dispatcher = d })
        → Follows cal now (record { configuration = c'; dispatcher = d })
    same_alarms c c' d e h =
        subst
          (λ as'.
            (signals : List Dispatcher.Signal) × (Armed cal now (heap_of as') (pointers as')
                (d, signals)
              ⊎ Disarmed cal now (heap_of as') (pointers as') (d, signals)))
          (sym e) h

    -- The dispatcher is told of the alarms, or they are the same.
    abbrev Heard : Configuration D → Configuration D → List Signal → Type 0
    Heard c c' ss = ((ss ≡ []) × (c'.alarms ≡ c.alarms)) ⊎ (ss ≡ Signal.alarms_changed ∷ [])

    Heard-Follows :
        (c c' : Configuration D) (d : Dispatcher) (ss : List Signal)
        → Heard c c' ss
        → Follows cal now (record { configuration = c; dispatcher = d })
        → Follows cal now
            (record { configuration = c'; dispatcher = config_signals cal now c' d ss })
    unfolding config_signals
    Heard-Follows c c' d ss (inl (e, same)) h = rw e (same_alarms c c' d same h)
    Heard-Follows c c' d ss (inr e) h = rw e (checked cal now c' d)

    none_deleted :
        (c : Configuration D) (n : ℕ)
        → find_by_id alarm_id c.alarms n ≡ none
        → Configuration.delete_alarm c n ≡ none
    unfolding Configuration.delete_alarm
    none_deleted c n e = rw e refl

    call-Heard :
        (s : Server D) (call : Call)
        → Heard s.stores
            (serve json texts dates stoi parse s call).0.stores
            (alarm_signals s.stores call)
    unfolding alarm_signals serve Alarms.add_alarm Configuration.add_alarm
    call-Heard s (alarms (add body fresh)) =
        elim (Option-cases (Alarms.read_body json texts (parse body) fresh)) [
          | inl e ↦ inl (rw (alarm_signals, e) refl, rw e refl)
          | inr (x, e) ↦ inr (rw (alarm_signals, e) refl)
        ]
    call-Heard s (alarms (delete_one uid)) =
        elim (Option-cases (find_by_id alarm_id s.stores.alarms (uid_of texts uid))) [
          | inl e ↦ inl (
            rw (alarm_signals, none_deleted s.stores (uid_of texts uid) e) refl,
            ap (λ r. r.0.alarms) ((Alarms.missing json texts s.stores uid e).1),
          )
          | inr (x, e) ↦ inr (rw (alarm_signals, deletes s.stores (uid_of texts uid) x e) refl)
        ]
    call-Heard s (alarms (read_list offset len)) = inl (refl, refl)
    call-Heard s (alarms (get_one uid)) = inl (refl, refl)
    call-Heard s (radios (add body fresh)) = inl (
      refl,
      ap (λ c. c.alarms) (serve-Kept json texts dates stoi parse s (radios (add body fresh))).0,
    )
    call-Heard s (radios (delete_one uid)) = inl (
      refl,
      ap (λ c. c.alarms) (serve-Kept json texts dates stoi parse s (radios (delete_one uid))).0,
    )
    call-Heard s (radios (read_list offset len)) = inl (refl, refl)
    call-Heard s (radios (get_one uid)) = inl (refl, refl)
    call-Heard s (podcasts (add body fresh)) = inl (
      refl,
      ap (λ c. c.alarms) (serve-Kept json texts dates stoi parse s (podcasts (add body fresh))),
    )
    call-Heard s (podcasts (delete_one uid)) = inl (
      refl,
      ap (λ c. c.alarms) (serve-Kept json texts dates stoi parse s (podcasts (delete_one uid))).0,
    )
    call-Heard s (podcasts (read_list offset len)) = inl (refl, refl)
    call-Heard s (podcasts (get_one uid)) = inl (refl, refl)
    call-Heard s elsewhere = inl (refl, refl)

    -- Whatever requests arrive, on whatever paths and with whatever bodies, the dispatcher waits
    -- afterwards for the next instance of an enabled alarm of the store that none of the enabled ones
    -- precedes, or its timer is stopped and none is enabled, if it did before.
    pub remotes-Follows :
        (w : Files × Clock D) (calls : List Call)
        → Follows cal now w.1
        → Follows cal now (remotes w calls).1
    unfolding remotes remote
    remotes-Follows w [] h = h
    remotes-Follows (files, k) (call ∷ calls) h =
        let s : Server D = record { files = files; stores = k.configuration } in
        remotes-Follows (remote (files, k) call) calls (
          Heard-Follows k.configuration (serve json texts dates stoi parse s call).0.stores
            k.dispatcher (alarm_signals k.configuration call) (call-Heard s call) h)
