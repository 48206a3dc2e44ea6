-- ===== src/Persistence/Recovery/Snapshots.antt =====
-- tellus/src/persistence/spawn.rs, `recover`: a snapshot saves work and changes nothing else.
use tellus.Prelude.{
  ℕ, ◌+◌, ◌≤◌, ◌<◌, ◌≡◌, refl, ap, sym, ◌∙◌, Option, none, some, List, length, take, drop,
  take-append-drop, arith, done, returned, catch_and_log, catch_panic_and_log, and_then,
}
use tellus.Persistence.SeqNo.{SeqNo}
use tellus.Persistence.Id.{PersistenceId}
use tellus.Persistence.Store.{EncodedEvent, StoredSnapshot}
use tellus.Persistence.Store.Contract.{IsEventStore}
use tellus.Persistence.EventSourced.{EventSourced, Persistence}
use tellus.Persistence.Recovery.{
  Recovered, decode_snapshot, initial, starting_at, with_id, replay_initial, recover_as,
  recover_from, recover,
}
use tellus.Persistence.Recovery.Replay.{replayed, replayed-append}
use tellus.Persistence.Recovery.Loop.{IsReadable, replay_from-replayed}

module _ (A : EventSourced) where
  -- The state after all the events of a stream, from the initial one.
  abbrev pub full_replay : List EncodedEvent → Option A.State
  full_replay es = and_then (catch_and_log A.init) (λ s. replayed A s es)

  abbrev pub recovered_at : PersistenceId → SeqNo → Option A.State → Option (Recovered A.State)
  recovered_at id n none = none
  recovered_at id n (some s) = some (record { id = id; state = s; next_seq_no = n })

  -- A snapshot that decodes stands within the stream, for the state that a replay has there.
  abbrev pub StandsFor : List EncodedEvent → Option (A.Snapshot × SeqNo) → Type 0
  StandsFor es none = Unit {0}
  StandsFor es (some (snapshot, n)) =
      (n ≤ length es) × (catch_and_log (A.init_from_snapshot snapshot) ≡ full_replay (take n es))

  resume :
      (n : ℕ) (es : List EncodedEvent) (o : Option A.State)
      → and_then (and_then o (λ s. replayed A s (take n es))) (λ s. replayed A s (drop n es))
        ≡ and_then o (λ s. replayed A s es)
  resume n es none = refl
  resume n es (some s) =
      sym (replayed-append A s (take n es) (drop n es)) ∙ ap (replayed A s) (take-append-drop n es)

  unfoldable pub IsCoherent : List EncodedEvent → Option StoredSnapshot → Type 0
  IsCoherent es stored = StandsFor es (decode_snapshot A stored)

module _ {World : Type 0} (A : EventSourced) (P : Persistence World A)
    (L : IsEventStore P.event_store) (w : World) (id : PersistenceId)
    (readable : IsReadable A P L w id) where
  with_id_lem :
      (n : SeqNo) (o : Option A.State)
      → with_id A P id (some (starting_at A n o)) ≡ some (recovered_at A id n o)
  unfolding with_id starting_at
  with_id_lem n none = refl
  with_id_lem n (some s) = refl

  from_state :
      (fuel : ℕ) (n : SeqNo) (o : Option A.State)
      → n ≤ length (L.stream w id)
      → length (L.stream w id) < n + fuel
      → replay_initial A P fuel w id (starting_at A n o)
        ≡ some (
            recovered_at A id
              (length (L.stream w id))
              (and_then o (λ s. replayed A s (drop n (L.stream w id)))))
  unfolding replay_initial starting_at
  from_state fuel n none le enough = refl
  from_state fuel n (some s) le enough =
      ap (with_id A P id) (replay_from-replayed A P L w id readable fuel s n le enough)
      ∙ with_id_lem (length (L.stream w id)) (replayed A s (drop n (L.stream w id)))

  replay_initial-full :
      (fuel : ℕ) (d : Option (A.Snapshot × SeqNo))
      → StandsFor A (L.stream w id) d
      → length (L.stream w id) < fuel
      → replay_initial A P fuel w id (initial A d)
        ≡ some (recovered_at A id (length (L.stream w id)) (full_replay A (L.stream w id)))
  unfolding initial
  replay_initial-full fuel none c enough =
      from_state fuel 0 (catch_and_log A.init) (omega arith) (omega arith)
  replay_initial-full fuel (some (snapshot, n)) (le, same) enough =
      from_state fuel n (catch_and_log (A.init_from_snapshot snapshot)) le (omega arith)
      ∙ ap (λ o. some (recovered_at A id (length (L.stream w id)) o))
          (ap (λ o. and_then o (λ s. replayed A s (drop n (L.stream w id)))) same
            ∙ resume A n (L.stream w id) (catch_and_log A.init))

  -- Where the stream can be read from every position, no longer than a `u64` counts, and the load
  -- of the snapshot does not fail: whether there is no snapshot, one that does not decode, or a
  -- coherent one, with fuel for each event the recovery ends with the state that the whole stream
  -- replays to and the position behind it, and fails exactly where that replay does. It is asked
  -- that the store of events keeps its laws and that `persistence_id` returns the ID.
  pub recover-full_replay :
      (fuel : ℕ) (stored : Option StoredSnapshot)
      → A.persistence_id ≡ returned id
      → P.snapshot_store.load w id ≡ done stored
      → IsCoherent A (L.stream w id) stored
      → length (L.stream w id) < fuel
      → recover A P fuel w
        ≡ some (recovered_at A id (length (L.stream w id)) (full_replay A (L.stream w id)))
  unfolding recover IsCoherent
  recover-full_replay fuel stored named loaded coherent enough =
      ap (λ o. recover_as A P fuel w (catch_panic_and_log o)) named
      ∙ ap (λ o. recover_from A P fuel w id (catch_and_log o)) loaded
      ∙ replay_initial-full fuel (decode_snapshot A stored) coherent enough
