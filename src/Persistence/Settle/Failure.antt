-- ===== src/Persistence/Settle/Failure.antt =====
-- tellus/src/persistence/spawn.rs, `settle` on every path, the failing ones too: what is in the stream
-- and what has reached the outside.
use tellus.Prelude.{
  ◌+◌, ◌≤◌, ◌≡◌, refl, ap, sym, ◌∙◌, ◌⊎◌, inl, inr, Bool, true, false, Option, none, some, List, [],
  ◌∷◌, ◌++◌, append_nil, length, u64_max, arith, done, Attempt-cases, catch_and_log,
  catch_panic_and_log, done_of_catch,
}
use tellus.Persistence.SeqNo.{SeqNo}
use tellus.Persistence.Id.{PersistenceId}
use tellus.Persistence.Store.{EncodedEvent, EncodedSnapshot}
use tellus.Persistence.Store.Contract.{IsEventStore}
use tellus.Persistence.Store.Together.{AreStores}
use tellus.Persistence.Effect.{Effect}
use tellus.Persistence.EventSourced.{EventSourced, Persistence}
use tellus.Persistence.Settle.{
  Settling, apply_events, encode_events, encode_snapshot, run_thens, save_some, save_snapshot,
  applied, apply_appended, append_encoded, persist, after_thens, after_events, settle_events,
  settle,
}
use tellus.Persistence.Settle.Apply.{length-encode_events}

-- All the events stand in the stream, encoded, behind what was there.
abbrev pub Landed :
    {World : Type 0} (A : EventSourced) (P : Persistence World A)
    → IsEventStore P.event_store
    → World
    → World
    → PersistenceId
    → List A.Event
    → Type 0
Landed A P L w w' id events =
    (xs : List EncodedEvent) × (encode_events A P events ≡ done xs)
    × (L.stream w' id ≡ L.stream w id ++ xs)

module _ {World : Type 0} (A : EventSourced) (P : Persistence World A)
    (L : IsEventStore P.event_store) (w₀ : World) (id : PersistenceId) (events : List A.Event)
    (valid : L.Valid w₀) (room : length (L.stream w₀ id) + length events ≤ u64_max) where
  abbrev AllOrNothing : Option (A.State × SeqNo) × World → Type 0
  AllOrNothing r =
      ((r.0 ≡ none) × (L.stream r.1 id ≡ L.stream w₀ id)) ⊎ Landed A P L w₀ r.1 id events

  applied_world : (w : World) (n : SeqNo) (o : Option A.State) → (applied A P w n events o).1 ≡ w
  unfolding applied
  applied_world w n none = refl
  applied_world w n (some s) = refl

  append_encoded-AllOrNothing :
      (s : A.State) (n : SeqNo) (o : Option (List EncodedEvent))
      → o ≡ catch_and_log (encode_events A P events)
      → AllOrNothing (append_encoded A P w₀ id s n events o)
  unfolding append_encoded apply_appended
  append_encoded-AllOrNothing s n none e = inl (refl, refl)
  append_encoded-AllOrNothing s n (some xs) e =
      let encoded = done_of_catch (encode_events A P events) (sym e) in
      let fits : length (L.stream w₀ id) + length xs ≤ u64_max =
        omega (arith, room, length-encode_events A P events xs encoded) in
      elim (Attempt-cases (P.event_store.append w₀ id n xs).0) [
        | inl (_, reply) ↦ inr (
          xs,
          encoded,
          ap (λ w. L.stream w id)
                (ap
                    (λ r.
                      (apply_appended A P s n events
                        (catch_and_log r, (P.event_store.append w₀ id n xs).1)).1)
                    reply
                  ∙ applied_world (P.event_store.append w₀ id n xs).1 n
                      (catch_panic_and_log (apply_events A s events)))
              ∙ (L.append_ok w₀ id n xs valid fits reply).1,
        )
        | inr refused ↦
            let same =
              ap (λ o. apply_appended A P s n events (o, (P.event_store.append w₀ id n xs).1))
                refused in
            elim (L.append_atomic w₀ id n xs valid fits) [
              | inl kept ↦ inl (ap (λ r. r.0) same, ap (λ r. L.stream r.1 id) same ∙ kept)
              | inr grown ↦ inr (xs, encoded, ap (λ r. L.stream r.1 id) same ∙ grown)
            ]
      ]

  persist-AllOrNothing : (s : A.State) (n : SeqNo) → AllOrNothing (persist A P w₀ id s n events)
  unfolding persist
  persist-AllOrNothing s n =
      append_encoded-AllOrNothing s n (catch_and_log (encode_events A P events)) refl

module _ {World : Type 0} (A : EventSourced) (P : Persistence World A)
    (L : IsEventStore P.event_store) (together : AreStores P.event_store P.snapshot_store L) where
  stream-save_some :
      (w : World) (id : PersistenceId) (n : SeqNo) (o : Option (Option EncodedSnapshot))
      → L.stream (save_some A P w id n o) id ≡ L.stream w id
  unfolding save_some
  stream-save_some w id n none = refl
  stream-save_some w id n (some none) = refl
  stream-save_some w id n (some (some x)) = together.stream-save w id id n x

  stream-after_thens :
      (w : World) (id : PersistenceId) (s : A.State) (n : SeqNo) (stop appended : Bool)
      (ran : List A.Out × Bool)
      → L.stream (after_thens A P w id s n stop appended ran).world id ≡ L.stream w id
  unfolding after_thens save_snapshot
  stream-after_thens w id s n stop appended (out, false) = refl
  stream-after_thens w id s n stop false (out, true) = refl
  stream-after_thens w id s n stop true (out, true) =
      stream-save_some w id n (catch_and_log (encode_snapshot A P s))

  -- What holds of a call of `settle`: nothing has happened, or the events are in the stream.
  abbrev Outcome : World → PersistenceId → List A.Event → Settling World A.State A.Out → Type 0
  Outcome w id events r =
      ((r.outcome ≡ none) × (r.emitted ≡ []) × (L.stream r.world id ≡ L.stream w id))
      ⊎ Landed A P L w r.world id events

  after_events_lem :
      (w : World) (id : PersistenceId) (effect : Effect A.Event A.State A.Out) (appended : Bool)
      (events : List A.Event) (o : Option (A.State × SeqNo)) (w' : World)
      → ((o ≡ none) × (L.stream w' id ≡ L.stream w id)) ⊎ Landed A P L w w' id events
      → Outcome w id events (after_events A P id effect appended (o, w'))
  unfolding after_events
  after_events_lem w id effect appended events none w' (inl (_, same)) = inl (refl, refl, same)
  after_events_lem w id effect appended events none w' (inr landed) = inr landed
  after_events_lem w id effect appended events (some (s, n)) w' (inl (e, same)) = absurd (cc e)
  after_events_lem w id effect appended events (some (s, n)) w' (inr (xs, encoded, grown)) = inr (
    xs,
    encoded,
    stream-after_thens w' id s n effect.stop appended (run_thens s effect.thens) ∙ grown,
  )

  settle_events_lem :
      (w : World) (id : PersistenceId) (s : A.State) (n : SeqNo)
      (effect : Effect A.Event A.State A.Out) (events : List A.Event)
      → L.Valid w
      → length (L.stream w id) + length events ≤ u64_max
      → Outcome w id events (settle_events A P w id s n effect events)
  unfolding settle_events encode_events
  settle_events_lem w id s n effect [] valid room =
      after_events_lem w id effect false [] (some (s, n)) w
        (inr ([], refl, sym (append_nil (L.stream w id))))
  settle_events_lem w id s n effect (e ∷ es) valid room =
      let r = persist A P w id s n (e ∷ es) in
      after_events_lem w id effect true (e ∷ es) r.0 r.1
        (persist-AllOrNothing A P L w id (e ∷ es) valid room s n)

  -- However `settle` ends, one of two things holds: it failed with the stream as it was and no
  -- continuation has emitted anything, or all of the effect's events stand in the stream, encoded, in
  -- order, behind what was there. So whatever a continuation has emitted rests on durable events. It
  -- is asked that a save does not touch a stream and that the stream stays within a `u64`.
  pub settle-Landed :
      (w : World) (id : PersistenceId) (s : A.State) (n : SeqNo)
      (effect : Effect A.Event A.State A.Out)
      → L.Valid w
      → length (L.stream w id) + length effect.events ≤ u64_max
      → (((settle A P w id s n effect).outcome ≡ none)
          × ((settle A P w id s n effect).emitted ≡ [])
          × (L.stream (settle A P w id s n effect).world id ≡ L.stream w id))
        ⊎ Landed A P L w (settle A P w id s n effect).world id effect.events
  unfolding settle
  settle-Landed w id s n effect valid room =
      settle_events_lem w id s n effect effect.events valid room
