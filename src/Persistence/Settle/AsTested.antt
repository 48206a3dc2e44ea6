-- ===== src/Persistence/Settle/AsTested.antt =====
-- tellus/src/testing.rs, `settle`, against the one of tellus/src/persistence/spawn.rs.
use tellus.Prelude.{
  ◌≡◌, ◌≢◌, ◌⊎◌, inl, inr, refl, ap, Bool, true, false, Option, none, some, List, [], ◌∷◌, length,
  Caught, returned, panicked, catch_and_log, catch_panic_and_log,
}
use tellus.Persistence.SeqNo.{SeqNo, advanced_by}
use tellus.Persistence.Id.{PersistenceId}
use tellus.Persistence.Store.{EncodedEvent}
use tellus.Persistence.Effect.{Effect}
use tellus.Persistence.EventSourced.{EventSourced, Persistence}
use tellus.Persistence.Settle.{
  Settled, Settling, apply_events, encode_events, run_thens, applied, apply_appended,
  append_encoded, persist, after_thens, after_events, settle_events, settle,
}
use tellus.Testing.{Settlement, Tested, ran, run_applied}
use tellus.Testing

module _ {World : Type 0} (A : EventSourced) (P : Persistence World A) where
  -- Whether events can be encoded and are accepted by the store.
  abbrev accepted : World → PersistenceId → SeqNo → Option (List EncodedEvent) → Option (Unit {0})
  accepted w id n none = none
  accepted w id n (some encoded) = catch_and_log (P.event_store.append w id n encoded).0

  abbrev pub NotDurable : World → PersistenceId → SeqNo → List A.Event → Type 0
  NotDurable w id n events =
      (events ≢ []) × (accepted w id n (catch_and_log (encode_events A P events)) ≡ none)

  abbrev settlement : Option (Settled A.State) → Option (Settlement A.State)
  settlement none = none
  settlement (some st) = some (record { state = st.state; stop = st.stop })

  -- The same state, the same stop, the same panics, and the same has been emitted.
  abbrev pub Agree : Tested A.State A.Out → Settling World A.State A.Out → Type 0
  Agree tested settling =
      (settlement settling.outcome ≡ catch_panic_and_log tested.outcome)
      × (settling.emitted ≡ tested.emitted)

  after_thens-Agree :
      (w : World) (id : PersistenceId) (s : A.State) (n : SeqNo) (stop appended : Bool)
      (r : List A.Out × Bool)
      → Agree (ran A s stop r) (after_thens A P w id s n stop appended r)
  unfolding ran after_thens
  after_thens-Agree w id s n stop appended (out, false) = (refl, refl)
  after_thens-Agree w id s n stop true (out, true) = (refl, refl)
  after_thens-Agree w id s n stop false (out, true) = (refl, refl)

  applied-Agree :
      (w : World) (id : PersistenceId) (n : SeqNo) (effect : Effect A.Event A.State A.Out)
      (events : List A.Event) (r : Caught A.State)
      → Agree
          (run_applied A effect r)
          (after_events A P id effect true (applied A P w n events (catch_panic_and_log r)))
  unfolding run_applied after_events applied
  applied-Agree w id n effect events panicked = (refl, refl)
  applied-Agree w id n effect events (returned s) =
      after_thens-Agree w id s (advanced_by n (length events)) effect.stop true
        (run_thens s effect.thens)

  abbrev Compared :
      World
      → PersistenceId
      → SeqNo
      → List A.Event
      → Tested A.State A.Out
      → Settling World A.State A.Out
      → Type 0
  Compared w id n events tested settling =
      (NotDurable w id n events × (settling.outcome ≡ none) × (settling.emitted ≡ []))
      ⊎ Agree tested settling

  appended-Compared :
      (w w' : World) (id : PersistenceId) (s : A.State) (n : SeqNo)
      (effect : Effect A.Event A.State A.Out) (events : List A.Event) (reply : Option (Unit {0}))
      → events ≢ []
      → accepted w id n (catch_and_log (encode_events A P events)) ≡ reply
      → Compared w id n events
          (run_applied A effect (apply_events A s events))
          (after_events A P id effect true (apply_appended A P s n events (reply, w')))
  unfolding apply_appended after_events
  appended-Compared w w' id s n effect events none full e = inl ((full, e), refl, refl)
  appended-Compared w w' id s n effect events (some _) full e =
      inr (applied-Agree w' id n effect events (apply_events A s events))

  encoded-Compared :
      (w : World) (id : PersistenceId) (s : A.State) (n : SeqNo)
      (effect : Effect A.Event A.State A.Out) (events : List A.Event)
      (encoded : Option (List EncodedEvent))
      → events ≢ []
      → catch_and_log (encode_events A P events) ≡ encoded
      → Compared w id n events
          (run_applied A effect (apply_events A s events))
          (after_events A P id effect true (append_encoded A P w id s n events encoded))
  unfolding append_encoded after_events
  encoded-Compared w id s n effect events none full e =
      inl ((full, ap (accepted w id n) e), refl, refl)
  encoded-Compared w id s n effect events (some xs) full e =
      let (reply, w') = P.event_store.append w id n xs in
      appended-Compared w w' id s n effect events (catch_and_log reply) full
        (ap (accepted w id n) e)

  events-Compared :
      (w : World) (id : PersistenceId) (s : A.State) (n : SeqNo)
      (effect : Effect A.Event A.State A.Out) (events : List A.Event)
      → Compared w id n events
          (run_applied A effect (apply_events A s events))
          (settle_events A P w id s n effect events)
  unfolding settle_events apply_events run_applied after_events persist
  events-Compared w id s n effect [] =
      inr (after_thens-Agree w id s n effect.stop false (run_thens s effect.thens))
  events-Compared w id s n effect (e ∷ es) =
      encoded-Compared w id s n effect (e ∷ es) (catch_and_log (encode_events A P (e ∷ es)))
        (λ h. absurd (cc h)) refl

  -- Whatever the stores do, `settle` of the run loop either fails because the effect's events cannot
  -- be encoded or are not accepted, and then nothing has been emitted; or it does what `settle` of a
  -- test does: the same state, the same stop, the same emitted, and it fails exactly where that
  -- panics.
  pub settle-eq-tested :
      (w : World) (id : PersistenceId) (s : A.State) (n : SeqNo)
      (effect : Effect A.Event A.State A.Out)
      → (NotDurable w id n effect.events
          × ((settle A P w id s n effect).outcome ≡ none)
          × ((settle A P w id s n effect).emitted ≡ []))
        ⊎ Agree (tellus.Testing.settle A s effect) (settle A P w id s n effect)
  unfolding settle tellus.Testing.settle
  settle-eq-tested w id s n effect = events-Compared w id s n effect effect.events
