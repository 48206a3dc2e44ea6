-- ===== src/Persistence/Settle/Restarts.antt =====
-- tellus/src/persistence/spawn.rs, `recover` and `settle` over the incarnations of one actor: each ends
-- between two effects or within one that fails, and the next one recovers.
use mathlib.Core.Path.{subst}
use tellus.Prelude.{
  ℕ, ◌+◌, ◌≤◌, ◌<◌, ◌≡◌, refl, sym, ◌∙◌, inl, inr, Bool, true, false, Option, Option-cases, none,
  some, List, [], ◌∷◌, length, u64_max, arith, done, returned, catch_and_log, catch_panic_and_log,
  done_of_catch,
}
use tellus.Persistence.SeqNo.{SeqNo}
use tellus.Persistence.Id.{PersistenceId}
use tellus.Persistence.Store.{EncodedEvent, StoredSnapshot}
use tellus.Persistence.Store.Contract.{IsEventStore}
use tellus.Persistence.Store.Together.{AreStores}
use tellus.Persistence.Effect.{Effect}
use tellus.Persistence.EventSourced.{EventSourced, Persistence}
use tellus.Persistence.Recovery.{Recovered, recover}
use tellus.Persistence.Recovery.Loop.{IsReadable}
use tellus.Persistence.Recovery.Snapshots.{
  full_replay, recovered_at, IsCoherent, recover-full_replay,
}
use tellus.Persistence.Settle.{
  encode_events, apply_events, run_thens, applied, apply_appended, append_encoded, persist,
  after_thens, after_events, settle_events, settle,
}
use tellus.Persistence.Settle.Apply.{EventsRoundTrip, length-encode_events}
use tellus.Persistence.Settle.Live.{SnapshotsRestore, IsLive, IsCoherent-append}
use tellus.Persistence.Settle.Durable.{Runs, recover-IsLive, Runs-IsLive}

-- What the stores keep of an ID while no incarnation is trusted: a stored snapshot stands for a state
-- on the way through the stream.
pub record IsKept {World : Type 0} (A : EventSourced) (P : Persistence World A)
    (L : IsEventStore P.event_store) (w : World) (id : PersistenceId) : Type 0 where
  pub valid : L.Valid w
  pub coherent :
      (stored : Option StoredSnapshot)
      → P.snapshot_store.load w id ≡ done stored
      → IsCoherent A (L.stream w id) stored

module _ {World : Type 0} (A : EventSourced) (P : Persistence World A)
    (L : IsEventStore P.event_store) (together : AreStores P.event_store P.snapshot_store L) where
  IsLive-IsKept :
      (w : World) (id : PersistenceId) (s : A.State) (n : SeqNo)
      → IsLive A P L w id s n
      → IsKept A P L w id
  IsLive-IsKept w id s n v = record { valid = v.valid; coherent = v.coherent }

  append-IsKept :
      (w : World) (id : PersistenceId) (n : SeqNo) (xs : List EncodedEvent)
      → IsKept A P L w id
      → length (L.stream w id) + length xs ≤ u64_max
      → IsKept A P L (P.event_store.append w id n xs).1 id
  append-IsKept w id n xs v room = record {
    valid = L.append_Valid w id n xs v.valid room;
    coherent = λ stored loaded.
        let before = v.coherent stored (sym (together.load-append w id id n xs) ∙ loaded) in
        elim (L.append_atomic w id n xs v.valid room) [
          | inl same ↦ subst (λ es. IsCoherent A es stored) (sym same) before
          | inr grown ↦
              subst (λ es. IsCoherent A es stored) (sym grown)
                (IsCoherent-append A (L.stream w id) xs stored before)
        ];
  }

  apply_appended_world :
      (s : A.State) (n : SeqNo) (events : List A.Event) (o : Option (Unit {0})) (w : World)
      → (apply_appended A P s n events (o, w)).1 ≡ w
  unfolding apply_appended applied
  apply_appended_world s n events none w = refl
  apply_appended_world s n events (some _) w =
      elim (Option-cases (catch_panic_and_log (apply_events A s events))) [
        | inl e ↦ rw (e, applied) refl
        | inr (x, e) ↦ rw (e, applied) refl
      ]

  append_encoded-IsKept :
      (w : World) (id : PersistenceId) (s : A.State) (n : SeqNo) (events : List A.Event)
      (o : Option (List EncodedEvent))
      → o ≡ catch_and_log (encode_events A P events)
      → IsKept A P L w id
      → length (L.stream w id) + length events ≤ u64_max
      → IsKept A P L (append_encoded A P w id s n events o).1 id
  unfolding append_encoded
  append_encoded-IsKept w id s n events none e v room = v
  append_encoded-IsKept w id s n events (some xs) e v room =
      let encoded = done_of_catch (encode_events A P events) (sym e) in
      let r = P.event_store.append w id n xs in
      subst (λ u. IsKept A P L u id) (sym (apply_appended_world s n events (catch_and_log r.0) r.1))
        (append-IsKept w id n xs v
          (omega (arith, room, length-encode_events A P events xs encoded)))

  after_events_failed :
      (id : PersistenceId) (effect : Effect A.Event A.State A.Out) (appended : Bool)
      (o : Option (A.State × SeqNo)) (w : World)
      → (after_events A P id effect appended (o, w)).outcome ≡ none
      → (after_events A P id effect appended (o, w)).world ≡ w
  unfolding after_events after_thens
  after_events_failed id effect appended none w h = refl
  after_events_failed id effect appended (some (s, n)) w h =
      thens_failed appended (run_thens s effect.thens) h
    where
      thens_failed :
          (appended : Bool) (ran : List A.Out × Bool)
          → (after_thens A P w id s n effect.stop appended ran).outcome ≡ none
          → (after_thens A P w id s n effect.stop appended ran).world ≡ w
      thens_failed appended (out, false) h = refl
      thens_failed false (out, true) h = refl
      thens_failed true (out, true) h = absurd (cc h)

  settle_failed-IsKept :
      (w : World) (id : PersistenceId) (s : A.State) (n : SeqNo)
      (effect : Effect A.Event A.State A.Out) (events : List A.Event)
      → IsKept A P L w id
      → length (L.stream w id) + length events ≤ u64_max
      → (settle_events A P w id s n effect events).outcome ≡ none
      → IsKept A P L (settle_events A P w id s n effect events).world id
  unfolding settle_events persist
  settle_failed-IsKept w id s n effect [] v room h =
      subst (λ u. IsKept A P L u id) (sym (after_events_failed id effect false (some (s, n)) w h)) v
  settle_failed-IsKept w id s n effect (e ∷ es) v room h =
      let r = persist A P w id s n (e ∷ es) in
      subst (λ u. IsKept A P L u id) (sym (after_events_failed id effect true r.0 r.1 h))
        (append_encoded-IsKept w id s n (e ∷ es) (catch_and_log (encode_events A P (e ∷ es))) refl v
          room)

  -- An effect that fails leaves the stores sound.
  pub settle-IsKept :
      (w : World) (id : PersistenceId) (s : A.State) (n : SeqNo)
      (effect : Effect A.Event A.State A.Out)
      → IsKept A P L w id
      → length (L.stream w id) + length effect.events ≤ u64_max
      → (settle A P w id s n effect).outcome ≡ none
      → IsKept A P L (settle A P w id s n effect).world id
  unfolding settle
  settle-IsKept w id s n effect v room h =
      settle_failed-IsKept w id s n effect effect.events v room h

module _ {World : Type 0} (A : EventSourced) (P : Persistence World A)
    (L : IsEventStore P.event_store) (id : PersistenceId) where
  -- The incarnations of one actor: each recovers from stores that can be read and reconciles its
  -- state without changing it; then it settles effects, beside the actors with other IDs, and it ends
  -- between two effects, or in one that fails at any point, a panic or a store's failure included.
  pub data Lives : World → World → Type 0 where
    unborn : {w : World} → Lives w w
    ends :
        {w w' v : World} {s : A.State} {n : SeqNo}
        → Lives w w'
        → (fuel : ℕ) (stored : Option StoredSnapshot) (r : Recovered A.State)
        → IsReadable A P L w' id
        → P.snapshot_store.load w' id ≡ done stored
        → length (L.stream w' id) < fuel
        → recover A P fuel w' ≡ some (some r)
        → A.recovered r.state ≡ done r.state
        → Runs A P L id w' r.state r.next_seq_no v s n
        → Lives w v
    fails :
        {w w' v : World} {s : A.State} {n : SeqNo}
        → Lives w w'
        → (fuel : ℕ) (stored : Option StoredSnapshot) (r : Recovered A.State)
        → IsReadable A P L w' id
        → P.snapshot_store.load w' id ≡ done stored
        → length (L.stream w' id) < fuel
        → recover A P fuel w' ≡ some (some r)
        → A.recovered r.state ≡ done r.state
        → Runs A P L id w' r.state r.next_seq_no v s n
        → (effect : Effect A.Event A.State A.Out)
        → length (L.stream v id) + length effect.events ≤ u64_max
        → (settle A P v id s n effect).outcome ≡ none
        → Lives w (settle A P v id s n effect).world

module _ {World : Type 0} (A : EventSourced) (P : Persistence World A)
    (L : IsEventStore P.event_store) (together : AreStores P.event_store P.snapshot_store L)
    (events_round_trip : EventsRoundTrip A P) (snapshots : SnapshotsRestore A P)
    (id : PersistenceId) (named : A.persistence_id ≡ returned id) where
  run-IsLive :
      (w v : World) (s : A.State) (n : SeqNo) (fuel : ℕ) (stored : Option StoredSnapshot)
      (r : Recovered A.State)
      → IsKept A P L w id
      → IsReadable A P L w id
      → P.snapshot_store.load w id ≡ done stored
      → length (L.stream w id) < fuel
      → recover A P fuel w ≡ some (some r)
      → Runs A P L id w r.state r.next_seq_no v s n
      → IsLive A P L v id s n
  run-IsLive w v s n fuel stored r kept readable loaded enough h run =
      Runs-IsLive A P L together events_round_trip snapshots id run
        (recover-IsLive A P L fuel w id stored r readable named loaded (kept.coherent stored loaded)
          enough h).1

  Lives-IsKept : {w v : World} → Lives A P L id w v → IsKept A P L w id → IsKept A P L v id
  Lives-IsKept unborn kept = kept
  Lives-IsKept {w = w}
        (ends {w' = u} {v = v} {s = s} {n = n} lives fuel stored r readable loaded enough h same
          run)
        kept =
      IsLive-IsKept A P L together v id s n (
        run-IsLive u v s n fuel stored r (Lives-IsKept {w = w} {v = u} lives kept) readable loaded
          enough h run)
  Lives-IsKept {w = w}
        (fails {w' = u} {v = v} {s = s} {n = n} lives fuel stored r readable loaded enough h same
          run effect room failed)
        kept =
      let live =
        run-IsLive u v s n fuel stored r (Lives-IsKept {w = w} {v = u} lives kept) readable loaded
          enough h run in
      settle-IsKept A P L together v id s n effect (IsLive-IsKept A P L together v id s n live) room
        failed

  -- After any number of incarnations, each ended between two effects or by an effect that failed at
  -- any point, the next recovery ends, with fuel for each event of the stream, and it gives the
  -- state that the whole durable stream replays to and the position behind it, with a snapshot or
  -- without one, or fails where that replay does. It is asked that no read of a recovery and no
  -- load of a snapshot fails, that each incarnation recovers and `recovered` leaves its state, that
  -- `persistence_id` returns the ID, that the stores keep their laws and do not touch each other's
  -- data, that events and snapshots decode to what was encoded, that the snapshot of a state
  -- initialises that state, that no append takes a stream beyond a `u64`, and that the start was
  -- sound, such as empty stores are.
  pub recover-Lives :
      {w v : World} (fuel : ℕ) (stored : Option StoredSnapshot)
      → IsKept A P L w id
      → Lives A P L id w v
      → IsReadable A P L v id
      → P.snapshot_store.load v id ≡ done stored
      → length (L.stream v id) < fuel
      → recover A P fuel v
        ≡ some (recovered_at A id (length (L.stream v id)) (full_replay A (L.stream v id)))
  recover-Lives {w = w} {v = v} fuel stored kept lives readable loaded enough =
      recover-full_replay A P L v id readable fuel stored named loaded
        ((Lives-IsKept {w = w} {v = v} lives kept).coherent stored loaded) enough
