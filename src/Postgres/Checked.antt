-- ===== src/Postgres/Checked.antt =====
-- tellus-persistence-postgres/src/lib.rs with tellus/src/persistence_tests.rs: the PostgreSQL store in
-- the hands of the checks, with a database that executes what it is sent.
use tellus.Prelude.{
  ◌+◌, ◌≤◌, ◌≡◌, ◌≢◌, refl, ap, ◌∙◌, List, [], ◌∷◌, length, arith, ok, done, some, failed,
}
use tellus.Prelude.Int.{pos, i64_max, u16_max, int_eq_iff}
use tellus.Persistence.SeqNo.{SeqNo}
use tellus.Persistence.Id.{PersistenceId}
use tellus.Persistence.Store.{EncodedEvent, EncodedSnapshot, conflict}
use tellus.Persistence.Checks.Reliable.{IsReliable}
use tellus.Persistence.Checks.Snapshots.{SavesReliably}
use tellus.Postgres.{
  Fate, Statement, executed, append, append_at, append_rows, next_of_stream, insert_into_events,
  number_rows, read_events, postgres_events, postgres_snapshots, save, save_at, load, save_snapshot,
  load_snapshot, snapshot_row, execute, query, transpose,
}
use tellus.Postgres.Schema.{Tables, insert_events, select_next}
use tellus.Postgres.Rows.{event_rows, number_rows_fit}
use tellus.Postgres.Contract.{stream, IsGapless, postgres-IsEventStore}
use tellus.Postgres.Race.{append_accepted, into_bigint_fits, next_at_end}
use tellus.Postgres.Together.{selected_saved}
use tellus.Postgres.Reading.{read_page}

append_rows_stale :
    (fate : Statement → Fate) (t : Tables) (id : PersistenceId) (n m : SeqNo) (e : EncodedEvent)
    (es : List EncodedEvent)
    → ((s : Statement) → fate s ≡ executed)
    → select_next id t.events ≡ ok (pos m)
    → n ≢ m
    → (append_rows fate id (pos n) (ok (event_rows id n (e ∷ es))) t t).0 ≡ failed conflict
unfolding append_rows insert_events
append_rows_stale fate t id n m e es run next ne =
    rw (run (insert_into_events id (event_rows id n (e ∷ es)) (pos n)))
      (rw next (ground (arith, int_eq_iff (pos m) (pos n))))

-- An append that is not at the end of its stream is a conflict, also one of nothing.
append_stale :
    (fate : Statement → Fate) (t : Tables) (id : PersistenceId) (n : SeqNo) (es : List EncodedEvent)
    → ((s : Statement) → fate s ≡ executed)
    → IsGapless t
    → n ≢ length (stream t id)
    → length (stream t id) ≤ i64_max
    → n + length es ≤ i64_max
    → (append fate t id n es).0 ≡ failed conflict
unfolding append append_at
append_stale fate t id n [] run v ne short small = rw (into_bigint_fits n (omega arith)) (
    rw (run (next_of_stream id)) (
      rw (next_at_end t id v short)
        (ground (arith, int_eq_iff (pos (length (stream t id))) (pos n)))))
append_stale fate t id n (e ∷ es) run v ne short small =
    let numbers : number_rows id (pos n) 0 (e ∷ es) ≡ ok (event_rows id n (e ∷ es)) =
      number_rows_fit id n 0 (e ∷ es) (omega arith)
      ∙ ap (λ m. ok (event_rows id m (e ∷ es))) (omega arith) in
    rw (into_bigint_fits n (omega arith)) (
      rw numbers (
        append_rows_stale fate t id n (length (stream t id)) e es run (next_at_end t id v short)
          ne))

pub postgres-IsReliable :
    (fate : Statement → Fate)
    → ((s : Statement) → fate s ≡ executed)
    → IsReliable (postgres_events fate) (postgres-IsEventStore fate)
postgres-IsReliable fate run = record {
  append_done = λ w id es v room. append_accepted fate w id es v room run;
  append_stale = λ w id n es v ne short small. append_stale fate w id n es run v ne short small;
  read_done = λ w id from limit v versions short le small. (
    _,
    read_page fate id limit small (λ n. run (read_events id (pos n) limit)) w from v versions short
        le,
  );
}

save_done :
    (fate : Statement → Fate) (t : Tables) (id : PersistenceId) (n : SeqNo) (x : EncodedSnapshot)
    → ((s : Statement) → fate s ≡ executed)
    → n ≤ i64_max
    → (save fate t id n x).0 ≡ done tt
unfolding save save_at execute
save_done fate t id n x run small =
    rw (into_bigint_fits n small) (rw (run (save_snapshot (snapshot_row id (pos n) x))) refl)

load_saved :
    (fate : Statement → Fate) (t : Tables) (id : PersistenceId) (n : SeqNo) (x : EncodedSnapshot)
    → ((s : Statement) → fate s ≡ executed)
    → n ≤ i64_max
    → x.schema_version ≤ u16_max
    → load fate (save fate t id n x).1 id ≡ done (some (record { next_seq_no = n; snapshot = x }))
unfolding save save_at execute load query transpose
load_saved fate t id n x run small fits = rw (into_bigint_fits n small) (
    rw (run (save_snapshot (snapshot_row id (pos n) x)))
      (rw (run (load_snapshot id)) (rw (selected_saved fate t id n x) (ground arith))))

pub postgres-SavesReliably :
    (fate : Statement → Fate)
    → ((s : Statement) → fate s ≡ executed)
    → SavesReliably (postgres_snapshots fate)
postgres-SavesReliably fate run = record {
  save_done = λ t id n x small. save_done fate t id n x run small;
  load_saved = λ t id n x small fits. load_saved fate t id n x run small fits;
}
