-- ===== src/Persistence/Settle/Invariant.antt =====
-- tellus/src/persistence/spawn.rs, `settle` as a whole: where the actor goes on, its state is what its
-- stream replays to.
use mathlib.Core.Path.{subst}
use tellus.Prelude.{
  ℕ, ◌+◌, ◌≤◌, ◌≡◌, refl, ap, sym, ◌∙◌, inl, inr, Bool, true, false, Option, none, some, List, [],
  ◌∷◌, length, u64_max, arith, catch_and_log, bind_attempt-eq-done, map_failed, done_of_catch,
  done_of_map_failed,
}
use tellus.Persistence.SeqNo.{SeqNo}
use tellus.Persistence.Id.{PersistenceId}
use tellus.Persistence.Store.{EncodedSnapshot}
use tellus.Persistence.Store.Contract.{IsEventStore}
use tellus.Persistence.Store.Together.{AreStores}
use tellus.Persistence.Effect.{Effect}
use tellus.Persistence.EventSourced.{EventSourced, Persistence}
use tellus.Persistence.Recovery.Snapshots.{full_replay, IsCoherent}
use tellus.Persistence.Settle.{
  Settled, actor, run_thens, encode_some, encode_snapshot, save_some, save_snapshot, persist,
  after_thens, after_events, settle_events, settle,
}
use tellus.Persistence.Settle.Apply.{EventsRoundTrip}
use tellus.Persistence.Settle.Persist.{persist-Persisted}
use tellus.Persistence.Settle.Live.{
  SnapshotsRestore, IsLive, encode_some_StandsFor, Persisted-IsLive,
}

some-injective : {A : Type 0} {a b : A} → ◌≡◌ {A = Option A} (some a) (some b) → a ≡ b
some-injective h = cc

module _ {World : Type 0} (A : EventSourced) (P : Persistence World A)
    (L : IsEventStore P.event_store) (together : AreStores P.event_store P.snapshot_store L)
    (events_round_trip : EventsRoundTrip A P) (snapshots : SnapshotsRestore A P) where
  -- The actor is live, and its stream has the given length.
  abbrev IsLiveAt : World → PersistenceId → A.State → SeqNo → ℕ → Type 0
  IsLiveAt w id s n k = IsLive A P L w id s n × (length (L.stream w id) ≡ k)

  save-IsLive :
      (w : World) (id : PersistenceId) (s : A.State) (n : SeqNo) (x : EncodedSnapshot) (k : ℕ)
      → IsLiveAt w id s n k
      → IsCoherent A (L.stream w id) (some (record { next_seq_no = n; snapshot = x }))
      → IsLiveAt (P.snapshot_store.save w id n x).1 id s n k
  save-IsLive w id s n x k (live, size) c =
      let same = together.stream-save w id id n x in
      (
        record {
          valid = together.save-Valid w id n x live.valid;
          position = live.position ∙ ap length (sym same);
          state = ap (full_replay A) same ∙ live.state;
          coherent = λ stored loaded.
              subst (λ es. IsCoherent A es stored) (sym same)
                (elim (together.load-save w id n x stored loaded) [
                  | inl e ↦ live.coherent stored e
                  | inr e ↦ subst (IsCoherent A (L.stream w id)) (sym e) c
                ]);
        },
        ap length same ∙ size,
      )

  save_some-IsLive :
      (w : World) (id : PersistenceId) (s : A.State) (n : SeqNo) (k : ℕ)
      (o : Option (Option EncodedSnapshot))
      → IsLiveAt w id s n k
      → ((x : EncodedSnapshot)
          → o ≡ some (some x)
          → IsCoherent A (L.stream w id) (some (record { next_seq_no = n; snapshot = x })))
      → IsLiveAt (save_some A P w id n o) id s n k
  unfolding save_some
  save_some-IsLive w id s n k none live c = live
  save_some-IsLive w id s n k (some none) live c = live
  save_some-IsLive w id s n k (some (some x)) live c = save-IsLive w id s n x k live (c x refl)

  -- Whether a snapshot is taken, saved or lost, the actor stays live.
  save_snapshot-IsLive :
      (w : World) (id : PersistenceId) (s : A.State) (n : SeqNo) (k : ℕ)
      → IsLiveAt w id s n k
      → IsLiveAt (save_snapshot A P w id s n) id s n k
  unfolding save_snapshot encode_snapshot
  save_snapshot-IsLive w id s n k (live, size) =
      save_some-IsLive w id s n k (catch_and_log (encode_snapshot A P s)) (live, size)
        λ x e.
          let (o, taken, encoded) =
            bind_attempt-eq-done (map_failed actor (A.snapshot s)) (encode_some A P)
              (done_of_catch (encode_snapshot A P s) e) in
          encode_some_StandsFor A P snapshots s o x n (L.stream w id)
            (done_of_map_failed actor (A.snapshot s) taken) encoded live.state live.position

  after_thens-IsLive :
      (w : World) (id : PersistenceId) (s : A.State) (n : SeqNo) (k : ℕ) (stop appended : Bool)
      (ran : List A.Out × Bool) (st : Settled A.State)
      → IsLiveAt w id s n k
      → (after_thens A P w id s n stop appended ran).outcome ≡ some st
      → IsLiveAt (after_thens A P w id s n stop appended ran).world id st.state st.next_seq_no k
  unfolding after_thens
  after_thens-IsLive w id s n k stop appended (out, false) st live h = absurd (cc h)
  after_thens-IsLive w id s n k stop false (out, true) st live h =
      subst {A = Settled A.State} (λ t. IsLiveAt w id t.state t.next_seq_no k) (some-injective h)
        live
  after_thens-IsLive w id s n k stop true (out, true) st live h =
      subst {A = Settled A.State}
        (λ t. IsLiveAt (save_snapshot A P w id s n) id t.state t.next_seq_no k) (some-injective h)
        (save_snapshot-IsLive w id s n k live)

  after_events-IsLive :
      (id : PersistenceId) (effect : Effect A.Event A.State A.Out) (appended : Bool) (k : ℕ)
      (o : Option (A.State × SeqNo)) (w : World) (st : Settled A.State)
      → ((s : A.State) (n : SeqNo) → o ≡ some (s, n) → IsLiveAt w id s n k)
      → (after_events A P id effect appended (o, w)).outcome ≡ some st
      → IsLiveAt (after_events A P id effect appended (o, w)).world id st.state st.next_seq_no k
  unfolding after_events
  after_events-IsLive id effect appended k none w st live h = absurd (cc h)
  after_events-IsLive id effect appended k (some (s, n)) w st live h =
      after_thens-IsLive w id s n k effect.stop appended (run_thens s effect.thens) st
        (live s n refl) h

  settle_events-IsLive :
      (w : World) (id : PersistenceId) (s : A.State) (n : SeqNo)
      (effect : Effect A.Event A.State A.Out) (events : List A.Event) (st : Settled A.State)
      → IsLive A P L w id s n
      → length (L.stream w id) + length events ≤ u64_max
      → (settle_events A P w id s n effect events).outcome ≡ some st
      → IsLiveAt
          (settle_events A P w id s n effect events).world
          id
          st.state
          st.next_seq_no
          (length (L.stream w id) + length events)
  unfolding settle_events
  settle_events-IsLive w id s n effect [] st live room h =
      after_events-IsLive id effect false (length (L.stream w id) + 0) (some (s, n)) w st
        (λ s' n' e.
          subst {A = A.State × SeqNo} (λ r. IsLiveAt w id r.0 r.1 (length (L.stream w id) + 0))
            (cc e) (live, omega arith))
        h
  settle_events-IsLive w id s n effect (e ∷ es) st live room h =
      let r = persist A P w id s n (e ∷ es) in
      after_events-IsLive id effect true (length (L.stream w id) + length (e ∷ es)) r.0 r.1 st
        (λ s' n' eq.
          Persisted-IsLive A P L together events_round_trip w id s n (e ∷ es) s' n' r.1 live room
            (persist-Persisted A P w id s n (e ∷ es) s' n' r.1 (ap (λ o. (o, r.1)) eq)))
        h

  -- Where `settle` lets a live actor go on, the actor is live again: its stream has grown by the
  -- effect's events, its position is the stream's end, its state is what the stream replays to, and
  -- a stored snapshot stands for a state on the way. It is asked that the two stores do not touch
  -- each other's data, that events and snapshots decode to what was encoded, that the snapshot of a
  -- state initialises that state, and that the stream stays within a `u64`.
  pub settle-IsLive :
      (w : World) (id : PersistenceId) (s : A.State) (n : SeqNo)
      (effect : Effect A.Event A.State A.Out) (st : Settled A.State)
      → IsLive A P L w id s n
      → length (L.stream w id) + length effect.events ≤ u64_max
      → (settle A P w id s n effect).outcome ≡ some st
      → IsLive A P L (settle A P w id s n effect).world id st.state st.next_seq_no
        × (length (L.stream (settle A P w id s n effect).world id)
            ≡ length (L.stream w id) + length effect.events)
  unfolding settle
  settle-IsLive w id s n effect st live room h =
      settle_events-IsLive w id s n effect effect.events st live room h
