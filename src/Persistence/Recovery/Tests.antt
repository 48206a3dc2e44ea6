-- ===== src/Persistence/Recovery/Tests.antt =====
-- tellus/src/persistence/spawn.rs, `recover`: runs, and the theorems at test data.
use tellus.Prelude.{◌+◌, length, ◌≡◌, refl, none, some, [], ◌∷◌, arith, drop, failed, done}
use tellus.Prelude.Dict.{lookup, insert, list_eq}
use tellus.Persistence.SeqNo.{advanced_by}
use tellus.Persistence.Versioned.{default_decode, decode_versioned}
use tellus.Persistence.InMemory.{InMemoryStore, empty_store, events, append, push_all, load, read}
use tellus.Persistence.InMemory.Contract.{
  stream, append-IsGapless, empty-IsGapless, in_memory-IsEventStore,
}
use tellus.Persistence.Recovery.{
  replay_page, replay_from, recover, starting_at, decode_snapshot, gap,
}
use tellus.Persistence.Recovery.Replay.{step, replayed, replay_page_gap}
use tellus.Persistence.Recovery.Loop.{IsReadable, replay_from-replayed}
use tellus.Persistence.Recovery.Snapshots.{
  full_replay, recovered_at, IsCoherent, recover-full_replay,
}
use tellus.Persistence.Counter.{Counter, in_memory, counter_id, event_of, stored_at}

-- A stream of three events.
abbrev three : InMemoryStore
three = (append empty_store counter_id 0 (event_of 1 ∷ event_of 2 ∷ event_of 3 ∷ [])).1

three_stream : stream three counter_id ≡ event_of 1 ∷ event_of 2 ∷ event_of 3 ∷ []
unfolding events append push_all lookup insert advanced_by list_eq
three_stream = refl

three-IsReadable : IsReadable Counter in_memory in_memory-IsEventStore three counter_id
unfolding read
three-IsReadable = record {
  valid =
      append-IsGapless empty_store counter_id 0 (event_of 1 ∷ event_of 2 ∷ event_of 3 ∷ [])
        empty-IsGapless (unfold events lookup in omega arith);
  fits = rw three_stream (omega arith);
  reads = λ n le. (_, refl);
}

three_replayed : full_replay Counter (stream three counter_id) ≡ some 6
unfolding replayed step decode_versioned default_decode list_eq
three_replayed = rw three_stream refl

three_not_snapshot : load three counter_id ≡ done none
unfolding load append lookup insert events
three_not_snapshot = refl

one_replayed : replayed Counter 5 (event_of 1 ∷ []) ≡ some 6
unfolding replayed step decode_versioned default_decode list_eq
one_replayed = refl

replay_page_gap_example :
    replay_page Counter 5 7 (stored_at 7 1 ∷ stored_at 9 2 ∷ stored_at 10 3 ∷ [])
    ≡ failed (gap 9 (7 + 1))
replay_page_gap_example =
    replay_page_gap Counter 5 6 7 (event_of 1 ∷ []) (stored_at 9 2) (stored_at 10 3 ∷ [])
      (omega arith) one_replayed (λ e. omega (arith, e))

replay_from-replayed_example :
    replay_from Counter in_memory 4 three counter_id 1 1
    ≡ some (
        starting_at Counter
          (length (stream three counter_id))
          (replayed Counter 1 (drop 1 (stream three counter_id))))
replay_from-replayed_example =
    replay_from-replayed Counter in_memory in_memory-IsEventStore three counter_id three-IsReadable
      4 1 1 (rw three_stream (omega arith)) (rw three_stream (omega arith))

recover-full_replay_example :
    recover Counter in_memory 4 three
    ≡ some (
        recovered_at Counter counter_id
          (length (stream three counter_id))
          (full_replay Counter (stream three counter_id)))
recover-full_replay_example =
    recover-full_replay Counter in_memory in_memory-IsEventStore three counter_id three-IsReadable 4
      none refl three_not_snapshot (unfold IsCoherent decode_snapshot in tt)
      (rw three_stream (omega arith))
