-- ===== src/Persistence/Settle/Durable.antt =====
-- tellus/src/persistence/spawn.rs, `settle` and `recover` together: an actor that goes down at any
-- point between two effects comes back as it was.
use mathlib.Core.Path.{subst}
use tellus.Prelude.{
  ℕ, ◌+◌, ◌≤◌, ◌<◌, ◌≡◌, ◌≢◌, refl, ap, sym, ◌∙◌, Option, none, some, List, length, u64_max, done,
  returned,
}
use tellus.Persistence.SeqNo.{SeqNo}
use tellus.Persistence.Id.{PersistenceId}
use tellus.Persistence.Store.{EncodedEvent, EncodedSnapshot, StoredSnapshot}
use tellus.Persistence.Store.Contract.{IsEventStore}
use tellus.Persistence.Store.Together.{AreStores}
use tellus.Persistence.Effect.{Effect}
use tellus.Persistence.EventSourced.{EventSourced, Persistence}
use tellus.Persistence.Recovery.{Recovered, recover}
use tellus.Persistence.Recovery.Loop.{IsReadable}
use tellus.Persistence.Recovery.Snapshots.{
  full_replay, recovered_at, IsCoherent, recover-full_replay,
}
use tellus.Persistence.Settle.{Settled, settle}
use tellus.Persistence.Settle.Apply.{EventsRoundTrip}
use tellus.Persistence.Settle.Live.{SnapshotsRestore, IsLive}
use tellus.Persistence.Settle.Invariant.{settle-IsLive}

module _ {World : Type 0} (A : EventSourced) (P : Persistence World A)
    (L : IsEventStore P.event_store) where
  -- What the world goes through while one actor runs: the effects that the actor settles, and the
  -- appends and saves of the actors with other IDs, in any order.
  pub data Runs (id : PersistenceId)
      : World → A.State → SeqNo → World → A.State → SeqNo → Type 0 where
    here : {w : World} {s : A.State} {n : SeqNo} → Runs id w s n w s n
    settles :
        {w w' : World} {s s' : A.State} {n n' : SeqNo}
        → Runs id w s n w' s' n'
        → (effect : Effect A.Event A.State A.Out) (st : Settled A.State)
        → length (L.stream w' id) + length effect.events ≤ u64_max
        → (settle A P w' id s' n' effect).outcome ≡ some st
        → Runs id w s n (settle A P w' id s' n' effect).world st.state st.next_seq_no
    other_appends :
        {w w' : World} {s s' : A.State} {n n' : SeqNo}
        → Runs id w s n w' s' n'
        → (j : PersistenceId) (m : SeqNo) (es : List EncodedEvent) → j ≢ id
        → length (L.stream w' j) + length es ≤ u64_max
        → Runs id w s n (P.event_store.append w' j m es).1 s' n'
    other_saves :
        {w w' : World} {s s' : A.State} {n n' : SeqNo}
        → Runs id w s n w' s' n'
        → (j : PersistenceId) (m : SeqNo) (x : EncodedSnapshot) → j ≢ id
        → Runs id w s n (P.snapshot_store.save w' j m x).1 s' n'

  -- Where a recovery ends with an actor, that actor is live.
  pub recover-IsLive :
      (fuel : ℕ) (w : World) (id : PersistenceId) (stored : Option StoredSnapshot)
      (r : Recovered A.State)
      → IsReadable A P L w id
      → A.persistence_id ≡ returned id
      → P.snapshot_store.load w id ≡ done stored
      → IsCoherent A (L.stream w id) stored
      → length (L.stream w id) < fuel
      → recover A P fuel w ≡ some (some r)
      → (r.id ≡ id) × IsLive A P L w id r.state r.next_seq_no
  recover-IsLive fuel w id stored r readable named loaded coherent enough h =
      go (full_replay A (L.stream w id)) refl
        (sym (recover-full_replay A P L w id readable fuel stored named loaded coherent enough) ∙ h)
    where
      go :
          (o : Option A.State)
          → full_replay A (L.stream w id) ≡ o
          → some (recovered_at A id (length (L.stream w id)) o) ≡ some (some r)
          → (r.id ≡ id) × IsLive A P L w id r.state r.next_seq_no
      go none e h = absurd (cc h)
      go (some s) e h =
          let same : record { id = id; state = s; next_seq_no = length (L.stream w id) } ≡ r =
            cc h in
          subst {A = Recovered A.State} (λ t. (t.id ≡ id) × IsLive A P L w id t.state t.next_seq_no)
            same
            (
              refl,
              record {
                valid = readable.valid;
                position = refl;
                state = e;
                coherent =
                    λ x l. subst (IsCoherent A (L.stream w id)) (cc (sym loaded ∙ l)) coherent;
              },
            )

module _ {World : Type 0} (A : EventSourced) (P : Persistence World A)
    (L : IsEventStore P.event_store) (together : AreStores P.event_store P.snapshot_store L) where
  append_other-IsLive :
      (w : World) (id j : PersistenceId) (s : A.State) (n m : SeqNo) (es : List EncodedEvent)
      → IsLive A P L w id s n
      → j ≢ id
      → length (L.stream w j) + length es ≤ u64_max
      → IsLive A P L (P.event_store.append w j m es).1 id s n
  append_other-IsLive w id j s n m es live ne room =
      let same = L.append_other w j id m es live.valid ne in
      record {
        valid = L.append_Valid w j m es live.valid room;
        position = live.position ∙ ap length (sym same);
        state = ap (full_replay A) same ∙ live.state;
        coherent = λ stored loaded.
            subst (λ es. IsCoherent A es stored) (sym same)
              (live.coherent stored (sym (together.load-append w j id m es) ∙ loaded));
      }

  save_other-IsLive :
      (w : World) (id j : PersistenceId) (s : A.State) (n m : SeqNo) (x : EncodedSnapshot)
      → IsLive A P L w id s n
      → j ≢ id
      → IsLive A P L (P.snapshot_store.save w j m x).1 id s n
  save_other-IsLive w id j s n m x live ne =
      let same = together.stream-save w j id m x in
      record {
        valid = together.save-Valid w j m x live.valid;
        position = live.position ∙ ap length (sym same);
        state = ap (full_replay A) same ∙ live.state;
        coherent = λ stored loaded.
            subst (λ es. IsCoherent A es stored) (sym same)
              (live.coherent stored (sym (together.load-save_other w j id m x ne) ∙ loaded));
      }

  module _ (events_round_trip : EventsRoundTrip A P) (snapshots : SnapshotsRestore A P) where
    pub Runs-IsLive :
        (id : PersistenceId) {w w' : World} {s s' : A.State} {n n' : SeqNo}
        → Runs A P L id w s n w' s' n'
        → IsLive A P L w id s n
        → IsLive A P L w' id s' n'
    Runs-IsLive id here live = live
    Runs-IsLive id {w = w} {s = s} {n = n} (settles {w' = v} {s' = t} {n' = m} run effect st room h)
          live =
        (settle-IsLive A P L together events_round_trip snapshots v id t m effect st
          (Runs-IsLive id {w = w} {w' = v} {s = s} {s' = t} {n = n} {n' = m} run live) room h).0
    Runs-IsLive id {w = w} {s = s} {n = n}
          (other_appends {w' = v} {s' = t} {n' = k} run j m es ne room) live =
        append_other-IsLive v id j t k m es
          (Runs-IsLive id {w = w} {w' = v} {s = s} {s' = t} {n = n} {n' = k} run live) ne room
    Runs-IsLive id {w = w} {s = s} {n = n} (other_saves {w' = v} {s' = t} {n' = k} run j m x ne)
          live =
        save_other-IsLive v id j t k m x
          (Runs-IsLive id {w = w} {w' = v} {s = s} {s' = t} {n = n} {n' = k} run live) ne

    -- An actor that starts live and then settles any effects, while the actors of other IDs append
    -- and save, is recovered from the stores at any point as exactly the state that it has there,
    -- at exactly its position: with fuel for each event of its stream, the recovery ends and
    -- succeeds, from a snapshot or without one. It is asked that the reads of the recovery and its
    -- load of the snapshot do not fail, that `persistence_id` returns the ID, that the stores keep
    -- their laws and do not touch each other's data, that events and snapshots decode to what was
    -- encoded, that the snapshot of a state initialises that state, and that no append takes a
    -- stream beyond a `u64`.
    pub recover-Runs :
        (id : PersistenceId) {w w' : World} {s s' : A.State} {n n' : SeqNo} (fuel : ℕ)
        (stored : Option StoredSnapshot)
        → IsLive A P L w id s n
        → Runs A P L id w s n w' s' n'
        → IsReadable A P L w' id
        → A.persistence_id ≡ returned id
        → P.snapshot_store.load w' id ≡ done stored
        → length (L.stream w' id) < fuel
        → recover A P fuel w' ≡ some (some (record { id = id; state = s'; next_seq_no = n' }))
    recover-Runs id {w' = w'} {s' = s'} fuel stored live run readable named loaded enough =
        let now = Runs-IsLive id run live in
        recover-full_replay A P L w' id readable fuel stored named loaded
          (now.coherent stored loaded) enough
        ∙ ap (λ o. some (recovered_at A id (length (L.stream w' id)) o)) now.state
        ∙ ap (λ m. some (some (record { id = id; state = s'; next_seq_no = m }))) (sym now.position)
