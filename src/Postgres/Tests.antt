-- ===== src/Postgres/Tests.antt =====
-- tellus-persistence-postgres/src/lib.rs: the theorems at test data.
use mathlib.Core.Path.{subst}
use tellus.Prelude.{
  ok, ℕ, ◌≡◌, ◌≢◌, ◌⊎◌, false, refl, [], ◌∷◌, ◌++◌, Option, some, length, take, drop, arith, Result,
  done, failed, done-injective,
}
use tellus.Prelude.Int.{pos, negsuc}
use tellus.Prelude.Dict.{list_eq}
use tellus.Persistence.Store.{conflict, StoredSnapshot}
use tellus.Persistence.Store.Numbered.{numbered}
use tellus.Persistence.SeqNo.{advanced_by}
use tellus.Persistence.Recovery.{recover, decode_snapshot}
use tellus.Persistence.Recovery.Replay.{replayed}
use tellus.Persistence.Recovery.Snapshots.{IsCoherent}
use tellus.Persistence.Settle.{Settled, Settling, settle}
use tellus.Persistence.EventSourced.{Persistence}
use tellus.Persistence.Settle.Apply.{EventsRoundTrip}
use tellus.Persistence.Settle.Live.{SnapshotsRestore, IsLive}
use tellus.Persistence.Settle.Durable.{here, settles}
use tellus.Persistence.Counter.{
  counter-EventsRoundTrip, counter-SnapshotsRestore, Counter, counter_id, event_of, total_of,
  number_codec, adding,
}
use tellus.Postgres.{
  postgres_events, postgres_snapshots, Statement, save_snapshot, Fate, executed, unanswered, append,
  append_seeing, read, load, save, into_bigint, seq_no_out_of_range, stored_event, event_row,
}
use tellus.Postgres.Schema.{Tables, rows_of, insert_events, select_snapshot, upsert_snapshot}
use tellus.Postgres.Contract.{stream, IsGapless, append_lem, postgres-IsEventStore}
use tellus.Postgres.Race.{overtaken}
use tellus.Postgres.Together.{postgres-AreStores}
use tellus.Postgres.Checked.{postgres-IsReliable, postgres-SavesReliably}
use tellus.Persistence.Checks.{snapshot_store_contract, snapshot_with_event_tail}
use tellus.Persistence.Checks.Snapshots.{snapshot_checks}
use tellus.Postgres.Reading.{read-append_executed, over_postgres, recover-over_postgres}

abbrev calm : Statement → Fate
calm s = executed

abbrev empty_tables : Tables
empty_tables = record { events = []; snapshots = [] }

empty_tables-IsGapless : IsGapless empty_tables
unfolding stream rows_of
empty_tables-IsGapless = record { gapless = λ id. refl }

nothing_stored : stream empty_tables counter_id ≡ []
unfolding stream rows_of
nothing_stored = refl

-- A writer whose answer is lost: the events are stored, and it is told of an error.
abbrev lossy : Statement → Fate
lossy s = unanswered

append_lem_example :
    let after = (append lossy empty_tables counter_id 0 (event_of 5 ∷ [])).1 in
    ((stream after counter_id ≡ stream empty_tables counter_id)
      ⊎ (stream after counter_id ≡ stream empty_tables counter_id ++ event_of 5 ∷ []))
    × ((j : _) → counter_id ≢ j → stream after j ≡ stream empty_tables j)
    × IsGapless after
    × ((append lossy empty_tables counter_id 0 (event_of 5 ∷ [])).0 ≡ done tt
        → (0 ≡ length (stream empty_tables counter_id))
          × (stream after counter_id ≡ stream empty_tables counter_id ++ event_of 5 ∷ []))
    × ((append lossy empty_tables counter_id 0 (event_of 5 ∷ [])).0 ≡ failed conflict
        → stream after counter_id ≡ stream empty_tables counter_id)
append_lem_example =
    append_lem lossy empty_tables counter_id 0 (event_of 5 ∷ []) empty_tables-IsGapless

abbrev one_event : Tables
one_event = (append calm empty_tables counter_id 0 (event_of 5 ∷ [])).1

one_event-IsGapless : IsGapless one_event
one_event-IsGapless =
    (append_lem calm empty_tables counter_id 0 (event_of 5 ∷ []) empty_tables-IsGapless).2

one_event_is :
    one_event ≡ record { events = event_row counter_id (pos 0) (event_of 5) ∷ []; snapshots = [] }
unfolding append insert_events
one_event_is = refl

one_stored : stream one_event counter_id ≡ stream empty_tables counter_id ++ event_of 5 ∷ []
unfolding append stream list_eq rows_of insert_events
one_stored = refl

-- A second writer that checked the empty table.
overtaken_example :
    let (reply, after) = append_seeing calm empty_tables one_event counter_id 0 (event_of 6 ∷ []) in
    (after ≡ one_event) × (reply ≢ done tt)
overtaken_example =
    overtaken calm empty_tables one_event counter_id 0 (event_of 5 ∷ []) (event_of 6 ∷ [])
      empty_tables-IsGapless one_event-IsGapless one_stored (λ e. cc) (λ e. cc)

overtaken_reply :
    (append_seeing calm empty_tables one_event counter_id 0 (event_of 6 ∷ [])).0 ≡ failed conflict
unfolding append append_seeing list_eq insert_events
overtaken_reply = refl

read-append_executed_example :
    let (reply, after) =
      append calm empty_tables counter_id
        (length (stream empty_tables counter_id))
        (event_of 5 ∷ event_of 6 ∷ []) in
    (reply ≡ done tt)
    × (read calm after counter_id 1 4
        ≡ done (
            take 4 (
              drop 1
                (numbered 0 (stream empty_tables counter_id ++ event_of 5 ∷ event_of 6 ∷ [])))))
read-append_executed_example =
    read-append_executed calm empty_tables counter_id (event_of 5 ∷ event_of 6 ∷ []) 1 4
      empty_tables-IsGapless (λ s. refl) (rw nothing_stored tt) (omega arith)
      (rw nothing_stored (omega arith)) (omega arith) (rw nothing_stored (omega arith))

-- The numbers behind the last one that a `BIGINT` holds, and a row that holds a negative one.
beyond_range : into_bigint 9223372036854775808 ≡ Result.err seq_no_out_of_range
unfolding into_bigint
beyond_range = refl

negative_row :
    stored_event (event_row counter_id (negsuc 0) (event_of 5)) ≡ Result.err seq_no_out_of_range
unfolding stored_event
negative_row = refl

-- The answers to the saves are lost, and all else goes well.
abbrev no_answer_to_saves : Statement → Fate
no_answer_to_saves (save_snapshot row) = unanswered
no_answer_to_saves s = executed

abbrev counter_persistence : Persistence Tables Counter
counter_persistence = over_postgres no_answer_to_saves Counter number_codec number_codec

counter-RoundTrip : EventsRoundTrip Counter counter_persistence
counter-RoundTrip e payload h = counter-EventsRoundTrip e payload h

counter-Restore : SnapshotsRestore Counter counter_persistence
counter-Restore = record {
  round_trip = λ x payload h. counter-SnapshotsRestore.round_trip x payload h;
  restore = λ s x h. counter-SnapshotsRestore.restore s x h;
}

counter_starts :
    IsLive Counter counter_persistence
      (postgres-IsEventStore no_answer_to_saves)
      empty_tables
      counter_id
      0
      0
unfolding stream rows_of load IsCoherent decode_snapshot replayed select_snapshot
counter_starts = record {
  valid = empty_tables-IsGapless;
  position = refl;
  state = refl;
  coherent =
      λ stored h. subst {A = Option StoredSnapshot} (IsCoherent Counter []) (done-injective h) tt;
}

abbrev settled : Settling Tables ℕ ℕ
settled = settle Counter counter_persistence empty_tables counter_id 0 0 (adding (1 ∷ 2 ∷ []))

abbrev after_settling : Settled ℕ
after_settling = record { state = 3; next_seq_no = 2; stop = false }

settled_outcome : settled.outcome ≡ some after_settling
unfolding settle tellus.Persistence.Settle.encode_events append insert_events list_eq
    tellus.Persistence.Settle.apply_events tellus.Persistence.Settle.run_thens advanced_by
settled_outcome = refl

settled_stream : stream settled.world counter_id ≡ event_of 1 ∷ event_of 2 ∷ []
unfolding settle tellus.Persistence.Settle.encode_events append insert_events list_eq
    tellus.Persistence.Settle.apply_events tellus.Persistence.Settle.run_thens advanced_by
    tellus.Persistence.Settle.save_snapshot tellus.Persistence.Settle.encode_snapshot save stream
    rows_of
settled_stream = refl

settled_snapshot :
    load no_answer_to_saves settled.world counter_id
    ≡ done (some (record { next_seq_no = 2; snapshot = total_of 3 }))
unfolding settle tellus.Persistence.Settle.encode_events append insert_events list_eq
    tellus.Persistence.Settle.apply_events tellus.Persistence.Settle.run_thens advanced_by
    tellus.Persistence.Settle.save_snapshot tellus.Persistence.Settle.encode_snapshot save load
    select_snapshot upsert_snapshot
settled_snapshot = refl

recover-over_postgres_example :
    recover Counter counter_persistence 3 settled.world
    ≡ some (some (record { id = counter_id; state = 3; next_seq_no = 2 }))
recover-over_postgres_example =
    recover-over_postgres no_answer_to_saves Counter number_codec number_codec counter_id 3
      (some (record { next_seq_no = 2; snapshot = total_of 3 })) counter-RoundTrip counter-Restore
      counter_starts
      (settles here (adding (1 ∷ 2 ∷ [])) after_settling (rw nothing_stored (omega arith))
        settled_outcome)
      (λ k. refl) (rw settled_stream (omega arith)) (rw settled_stream (omega arith)) refl
      settled_snapshot (rw settled_stream (omega arith))

snapshot_checks_example :
    ((t : Tables) × (snapshot_store_contract (postgres_snapshots calm) empty_tables counter_id
        ≡ ok t))
    × ((t : Tables) × (snapshot_with_event_tail
            (postgres_events calm)
            (postgres_snapshots calm)
            empty_tables
            counter_id
          ≡ ok t))
unfolding load select_snapshot
snapshot_checks_example =
    snapshot_checks (postgres_events calm) (postgres_snapshots calm) (postgres-IsEventStore calm)
      (postgres-AreStores calm) (postgres-IsReliable calm (λ s. refl))
      (postgres-SavesReliably calm (λ s. refl)) empty_tables counter_id empty_tables-IsGapless
      nothing_stored refl
