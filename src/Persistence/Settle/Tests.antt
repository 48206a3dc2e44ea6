-- ===== src/Persistence/Settle/Tests.antt =====
-- tellus/src/persistence/spawn.rs, `settle`: runs, and the theorems at test data.
use tellus.Prelude.{
  panicked, ℕ, ◌+◌, ◌≡◌, ◌≢◌, ◌⊎◌, refl, ap, none, some, [], ◌∷◌, ◌++◌, length, arith, false, done,
}
use tellus.Prelude.Dict.{lookup, insert, list_eq}
use tellus.Persistence.SeqNo.{advanced_by}
use tellus.Persistence.InMemory.{
  InMemoryStore, empty_store, events, append, push_all, load, read, save,
}
use tellus.Persistence.InMemory.Contract.{
  stream, append-IsGapless, empty-IsGapless, in_memory-IsEventStore,
}
use tellus.Persistence.InMemory.Together.{in_memory-AreStores}
use tellus.Persistence.Recovery.{recover, decode_snapshot}
use tellus.Persistence.Recovery.Loop.{IsReadable}
use tellus.Persistence.Recovery.Replay.{replayed}
use tellus.Persistence.Settle.{
  Settling, Settled, settle, settle_events, after_events, after_thens, persist, append_encoded,
  apply_appended, applied, apply_events, emit, run_thens, encode_event, encode_events,
  encode_snapshot, encode_some, save_snapshot, save_some,
}
use tellus.Persistence.Settle.Live.{IsLive}
use tellus.Persistence.Settle.Invariant.{settle-IsLive}
use tellus.Persistence.Settle.Durable.{Runs, here, settles, other_appends, recover-Runs}
use tellus.Persistence.Settle.Poison.{settle_poisoned}
use tellus.Persistence.Settle.Failure.{Landed, settle-Landed}
use tellus.Persistence.Settle.Restarts.{IsKept, Lives, unborn, fails, settle-IsKept, recover-Lives}
use tellus.Persistence.Effect.{Effect}
use tellus.Persistence.Recovery.Snapshots.{
  full_replay, recovered_at, IsCoherent, recover-full_replay,
}
use tellus.Persistence.Counter.{
  counter-IsReadable, Counter, in_memory, counter_id, other_id, event_of, stored_at, total_of,
  adding, counter-EventsRoundTrip, counter-SnapshotsRestore, counter-IsLive,
}

no_events : length (stream empty_store counter_id) ≡ 0
unfolding events lookup
no_events = refl

abbrev first : Settling InMemoryStore ℕ ℕ
first = settle Counter in_memory empty_store counter_id 0 0 (adding (1 ∷ 2 ∷ []))

abbrev after_first : Settled ℕ
after_first = record { state = 3; next_seq_no = 2; stop = false }

first_outcome : first.outcome ≡ some after_first
unfolding settle settle_events after_events after_thens persist append_encoded apply_appended
    applied apply_events emit run_thens encode_event encode_events events append push_all lookup
    insert advanced_by list_eq
first_outcome = refl

first-IsLive :
    IsLive Counter in_memory in_memory-IsEventStore first.world counter_id 3 2
    × (length (stream first.world counter_id) ≡ length (stream empty_store counter_id) + 2)
first-IsLive =
    settle-IsLive Counter in_memory in_memory-IsEventStore in_memory-AreStores
      counter-EventsRoundTrip counter-SnapshotsRestore empty_store counter_id 0 0
      (adding (1 ∷ 2 ∷ [])) after_first counter-IsLive (rw no_events (omega arith)) first_outcome

settle-IsLive_example :
    IsLive Counter in_memory in_memory-IsEventStore first.world counter_id 3 2
    × (length (stream first.world counter_id) ≡ length (stream empty_store counter_id) + 2)
settle-IsLive_example =
    settle-IsLive Counter in_memory in_memory-IsEventStore in_memory-AreStores
      counter-EventsRoundTrip counter-SnapshotsRestore empty_store counter_id 0 0
      (adding (1 ∷ 2 ∷ [])) after_first counter-IsLive (rw no_events (omega arith)) first_outcome

settle-Landed_example :
    ((first.outcome ≡ none)
      × (first.emitted ≡ [])
      × (stream first.world counter_id ≡ stream empty_store counter_id))
    ⊎ Landed Counter in_memory in_memory-IsEventStore empty_store first.world counter_id
        (1 ∷ 2 ∷ [])
settle-Landed_example =
    settle-Landed Counter in_memory in_memory-IsEventStore in_memory-AreStores empty_store
      counter_id 0 0 (adding (1 ∷ 2 ∷ [])) empty-IsGapless (rw no_events (omega arith))

-- Two events and a snapshot, and then an append of another actor.
abbrev later : InMemoryStore
later = (append first.world other_id 0 (event_of 9 ∷ [])).1

first_is : first.world ≡ record {
  streams = (counter_id, stored_at 0 1 ∷ stored_at 1 2 ∷ []) ∷ [];
  snapshots = (counter_id, record { next_seq_no = 2; snapshot = total_of 3 }) ∷ [];
}
unfolding settle settle_events after_events after_thens persist append_encoded apply_appended
    applied apply_events emit run_thens encode_event encode_events events append push_all lookup
    insert advanced_by list_eq save_snapshot save_some encode_snapshot encode_some save
first_is = refl

first_other : length (stream first.world other_id) ≡ 0
unfolding events lookup list_eq
first_other = ap (λ w. length (stream w other_id)) first_is

later_stream : length (stream later counter_id) ≡ 2
unfolding events lookup list_eq append push_all insert
later_stream =
    ap (λ w. length (stream (append w other_id 0 (event_of 9 ∷ [])).1 counter_id)) first_is

later_snapshot :
    load later counter_id ≡ done (some (record { next_seq_no = 2; snapshot = total_of 3 }))
unfolding events lookup list_eq append push_all insert load
later_snapshot = ap (λ w. load (append w other_id 0 (event_of 9 ∷ [])).1 counter_id) first_is

ids_differ : other_id ≢ counter_id
ids_differ e = ground (arith, ap (λ i. i.entity_id) e)

two_steps : Runs Counter in_memory in_memory-IsEventStore counter_id empty_store 0 0 later 3 2
two_steps =
    other_appends
      (settles here (adding (1 ∷ 2 ∷ [])) after_first (rw no_events (omega arith)) first_outcome)
      other_id 0 (event_of 9 ∷ []) ids_differ (rw first_other (omega arith))

later-IsReadable : IsReadable Counter in_memory in_memory-IsEventStore later counter_id
unfolding read
later-IsReadable = record {
  valid =
      append-IsGapless first.world other_id 0 (event_of 9 ∷ []) first-IsLive.0.valid
        (rw first_other (omega arith));
  fits = rw later_stream (omega arith);
  reads = λ n le. (_, refl);
}

recover-Runs_example :
    recover Counter in_memory 3 later
    ≡ some (some (record { id = counter_id; state = 3; next_seq_no = 2 }))
recover-Runs_example =
    recover-Runs Counter in_memory in_memory-IsEventStore in_memory-AreStores
      counter-EventsRoundTrip counter-SnapshotsRestore counter_id 3
      (some (record { next_seq_no = 2; snapshot = total_of 3 })) counter-IsLive two_steps
      later-IsReadable refl later_snapshot (rw later_stream (omega arith))

-- An effect whose events are stored and whose continuation panics.
abbrev half : Effect ℕ ℕ ℕ
half = record { events = 4 ∷ []; stop = false; thens = (λ s. panicked) ∷ [] }

abbrev failed_world : InMemoryStore
failed_world = (settle Counter in_memory empty_store counter_id 0 0 half).world

half_fails : (settle Counter in_memory empty_store counter_id 0 0 half).outcome ≡ none
unfolding settle settle_events after_events after_thens persist append_encoded apply_appended
    applied apply_events emit run_thens encode_event encode_events events append push_all lookup
    insert advanced_by list_eq
half_fails = refl

failed_world_is :
    failed_world ≡ record { streams = (counter_id, stored_at 0 4 ∷ []) ∷ []; snapshots = [] }
unfolding settle settle_events after_events after_thens persist append_encoded apply_appended
    applied apply_events emit run_thens encode_event encode_events events append push_all lookup
    insert advanced_by list_eq
failed_world_is = refl

failed_stream : length (stream failed_world counter_id) ≡ 1
unfolding events lookup list_eq
failed_stream = ap (λ w. length (stream w counter_id)) failed_world_is

failed_snapshot : load failed_world counter_id ≡ done none
unfolding load lookup
failed_snapshot = ap (λ w. load w counter_id) failed_world_is

empty-IsKept : IsKept Counter in_memory in_memory-IsEventStore empty_store counter_id
empty-IsKept = record { valid = counter-IsLive.valid; coherent = counter-IsLive.coherent }

empty_recovers :
    recover Counter in_memory 1 empty_store
    ≡ some (some (record { id = counter_id; state = 0; next_seq_no = 0 }))
unfolding IsCoherent decode_snapshot load lookup events replayed
empty_recovers =
    recover-full_replay Counter in_memory in_memory-IsEventStore empty_store counter_id
      counter-IsReadable 1 none refl refl tt (omega arith)

one_failure : Lives Counter in_memory in_memory-IsEventStore counter_id empty_store failed_world
unfolding load lookup
one_failure =
    fails unborn 1 none (record { id = counter_id; state = 0; next_seq_no = 0 }) counter-IsReadable
      refl (rw no_events (omega arith)) empty_recovers refl here half (rw no_events (omega arith))
      half_fails

failed-IsReadable : IsReadable Counter in_memory in_memory-IsEventStore failed_world counter_id
unfolding read
failed-IsReadable = record {
  valid =
      (settle-IsKept Counter in_memory in_memory-IsEventStore in_memory-AreStores empty_store
        counter_id 0 0 half empty-IsKept (rw no_events (omega arith)) half_fails).valid;
  fits = rw failed_stream (omega arith);
  reads = λ n le. (_, refl);
}

recover-Lives_example :
    recover Counter in_memory 2 failed_world
    ≡ some (
        recovered_at Counter counter_id
          (length (stream failed_world counter_id))
          (full_replay Counter (stream failed_world counter_id)))
recover-Lives_example =
    recover-Lives Counter in_memory in_memory-IsEventStore in_memory-AreStores
      counter-EventsRoundTrip counter-SnapshotsRestore counter_id refl 2 none empty-IsKept
      one_failure failed-IsReadable failed_snapshot (rw failed_stream (omega arith))

zero_refused : apply_events Counter 0 (0 ∷ []) ≡ panicked
unfolding apply_events
zero_refused = refl

settle_poisoned_example :
    ((settle Counter in_memory empty_store counter_id 0 0 (adding (0 ∷ []))).emitted ≡ [])
    × ((stream
            (settle Counter in_memory empty_store counter_id 0 0 (adding (0 ∷ []))).world
            counter_id
          ≡ stream empty_store counter_id)
        ⊎ (full_replay Counter (
              stream
                (settle Counter in_memory empty_store counter_id 0 0 (adding (0 ∷ []))).world
                counter_id
              ++ event_of 3 ∷ [])
            ≡ none))
settle_poisoned_example =
    settle_poisoned Counter in_memory in_memory-IsEventStore in_memory-AreStores
      counter-EventsRoundTrip empty_store counter_id 0 0 (adding (0 ∷ [])) (event_of 3 ∷ [])
      counter-IsLive (rw no_events (omega arith)) zero_refused
