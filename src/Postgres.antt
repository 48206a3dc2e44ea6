-- ===== src/Postgres.antt =====
-- tellus-persistence-postgres/src/lib.rs: the two stores over PostgreSQL. `fate` says what befalls a
-- statement on its way: the database and the connection to it are not part of the repository.
pub mod Schema
pub mod Rows
pub mod Cases
pub mod Contract
pub mod Race
pub mod Together
pub mod Reading
pub mod Checked
mod Tests
use tellus.Prelude.{
  ℕ, zero, suc, ◌+◌, Bool, true, false, Option, none, some, List, [], ◌∷◌, ◌++◌, length, min,
  nat_eq, u64_max, Result, ok, err, ◌>>=◌, Attempt, done, failed, if◌then◌else◌,
}
use tellus.Prelude.Int.{ℤ, pos, i64_max, u16_max, int_eq, to_i64, to_unsigned, checked_add}
use tellus.Prelude.Dict.{list_eq, nat_key}
use tellus.Persistence.SeqNo.{SeqNo}
use tellus.Persistence.Id.{PersistenceId, Text}
use tellus.Persistence.Store.{
  EncodedEvent, StoredEvent, EncodedSnapshot, StoredSnapshot, SchemaVersion, AppendError, conflict,
  store, EventStore, SnapshotStore,
}
use Schema.{
  EventRow, SnapshotRow, Tables, unique_violation, select_next, insert_events, select_events,
  upsert_snapshot, select_snapshot,
}

-- An error of the `sqlx` crate: one that the database reports, with its code, or any other.
pub data SqlxError : Type 0 where
  database : Text → SqlxError
  connection : SqlxError

-- `Migrate` is left out: only `migrate` gives it.
pub data Error : Type 0 where
  sqlx : SqlxError → Error
  seq_no_out_of_range : Error
  schema_version_out_of_range : Error

-- A statement with what is bound to it.
pub data Statement : Type 0 where
  next_of_stream : PersistenceId → Statement
  insert_into_events : PersistenceId → List EventRow → ℤ → Statement
  read_events : PersistenceId → ℤ → ℕ → Statement
  save_snapshot : SnapshotRow → Statement
  load_snapshot : PersistenceId → Statement

-- The database executes a statement whole or not at all. It may refuse one, and the connection may
-- break before a statement has arrived or before its answer has.
pub data Fate : Type 0 where
  executed : Fate
  refused : Text → Fate
  unreached : Fate
  unanswered : Fate

abbrev pub reported : {A : Type 0} → Result A Text → Result A SqlxError
reported (ok a) = ok a
reported (err code) = err (database code)

unfoldable pub query : {A : Type 0} → Fate → Result A Text → Result A SqlxError
query executed answer = reported answer
query (refused code) answer = err (database code)
query unreached answer = err connection
query unanswered answer = err connection

-- A statement that changes a table, with the table before it.
unfoldable pub execute : {A T : Type 0} → Fate → Result (A × T) Text → T → Result A SqlxError × T
execute executed (ok (a, after)) before = (ok a, after)
execute executed (err code) before = (err (database code), before)
execute (refused code) answer before = (err (database code), before)
execute unreached answer before = (err connection, before)
execute unanswered (ok (a, after)) before = (err connection, after)
execute unanswered (err code) before = (err connection, before)

abbrev pub or_else {ℓ} : {A : Type ℓ} → Error → Option A → Result A Error
or_else e none = err e
or_else e (some a) = ok a

unfoldable pub into_bigint : SeqNo → Result ℤ Error
into_bigint n = or_else seq_no_out_of_range (to_i64 n)

unfoldable pub seq_no : ℤ → Result SeqNo Error
seq_no n = or_else seq_no_out_of_range (to_unsigned u64_max n)

unfoldable pub schema_version : ℤ → Result SchemaVersion Error
schema_version n = or_else schema_version_out_of_range (to_unsigned u16_max n)

-- The schema gives each column its type, so that reading one does not fail.
unfoldable pub stored_event : EventRow → Result StoredEvent Error
unfolding seq_no schema_version
stored_event row = do
  n ← seq_no row.seq_no
  v ← schema_version row.schema_version
  ok (record {
    seq_no = n;
    event = record { manifest = row.manifest; schema_version = v; payload = row.payload };
  })

unfoldable pub stored_snapshot : SnapshotRow → Result StoredSnapshot Error
unfolding seq_no schema_version
stored_snapshot row = do
  n ← seq_no row.next_seq_no
  v ← schema_version row.schema_version
  ok (record {
    next_seq_no = n;
    snapshot = record { manifest = row.manifest; schema_version = v; payload = row.payload };
  })

-- `.map(stored_event).collect()`
unfoldable pub collect_events : List EventRow → Result (List StoredEvent) Error
unfolding stored_event
collect_events [] = ok []
collect_events (r ∷ rs) = do e ← stored_event r; es ← collect_events rs; ok (e ∷ es)

unfoldable pub is_unique_violation : SqlxError → Bool
is_unique_violation (database code) = list_eq code unique_violation
is_unique_violation connection = false

row_number : ℤ → Option ℤ → Option ℤ
row_number next none = none
row_number next (some (pos n)) = checked_add next n
row_number next (some (ℤ.negsuc n)) = none

abbrev pub event_row : PersistenceId → ℤ → EncodedEvent → EventRow
event_row id n e = record {
  id = id;
  seq_no = n;
  manifest = e.manifest;
  schema_version = pos e.schema_version;
  payload = e.payload;
}

-- The loop that fills the four columns, `n` its `enumerate` counter.
unfoldable pub number_rows :
    PersistenceId → ℤ → ℕ → List EncodedEvent → Result (List EventRow) Error
unfolding row_number
number_rows id next n [] = ok []
number_rows id next n (e ∷ es) = do
  k ← or_else seq_no_out_of_range (row_number next (to_i64 n))
  rows ← number_rows id next (suc n) es
  ok (event_row id k e ∷ rows)

unfoldable pub fenced : ℤ → Result ℤ SqlxError → Attempt (Unit {0}) (AppendError Error)
fenced expected (err e) = failed (store (sqlx e))
fenced expected (ok actual) = if int_eq actual expected then done tt else failed conflict

-- The `match` on what the insertion gives, `count` the number of the rows.
unfoldable pub appended : ℕ → Result ℕ SqlxError → Attempt (Unit {0}) (AppendError Error)
unfolding is_unique_violation
appended count (ok affected) = if nat_eq affected count then done tt else failed conflict
appended count (err e) = if is_unique_violation e then failed conflict else failed (store (sqlx e))

abbrev pub to_attempt : {A : Type 0} → Result A Error → Attempt A Error
to_attempt (ok a) = done a
to_attempt (err e) = failed e

abbrev pub map_sqlx : {A : Type 0} → Result A SqlxError → Result A Error
map_sqlx (ok a) = ok a
map_sqlx (err e) = err (sqlx e)

abbrev pub snapshot_row : PersistenceId → ℤ → EncodedSnapshot → SnapshotRow
snapshot_row id n s = record {
  id = id;
  next_seq_no = n;
  manifest = s.manifest;
  schema_version = pos s.schema_version;
  payload = s.payload;
}

-- `row.map(stored_snapshot).transpose()`
unfoldable pub transpose : Option SnapshotRow → Result (Option StoredSnapshot) Error
unfolding stored_snapshot
transpose none = ok none
transpose (some row) = do s ← stored_snapshot row; ok (some s)

module _ (fate : Statement → Fate) where
  append_rows :
      PersistenceId
      → ℤ
      → Result (List EventRow) Error
      → Tables
      → Tables
      → Attempt (Unit {0}) (AppendError Error) × Tables
  unfolding execute appended
  append_rows id n (err e) seen t = (failed (store e), t)
  append_rows id n (ok rows) seen t =
      let (inserted, events) =
        execute (fate (insert_into_events id rows n)) (insert_events id rows n seen.events t.events)
          t.events in
      (appended (length rows) inserted, record t { events = events })

  append_at :
      PersistenceId
      → List EncodedEvent
      → Result ℤ Error
      → Tables
      → Tables
      → Attempt (Unit {0}) (AppendError Error) × Tables
  unfolding append_rows number_rows fenced query
  append_at id es (err e) seen t = (failed (store e), t)
  append_at id [] (ok n) seen t =
      (fenced n (query (fate (next_of_stream id)) (select_next id seen.events)), t)
  append_at id (e ∷ es) (ok n) seen t = append_rows id n (number_rows id n 0 (e ∷ es)) seen t

  -- An append whose condition sees the tables as they were when its statement started, `seen`.
  unfoldable pub append_seeing :
      Tables
      → Tables
      → PersistenceId
      → SeqNo
      → List EncodedEvent
      → Attempt (Unit {0}) (AppendError Error) × Tables
  unfolding append_at into_bigint
  append_seeing seen t id next_seq_no es = append_at id es (into_bigint next_seq_no) seen t

  -- An append that no other writer overlaps.
  unfoldable pub append :
      Tables
      → PersistenceId
      → SeqNo
      → List EncodedEvent
      → Attempt (Unit {0}) (AppendError Error) × Tables
  unfolding append_seeing
  append t id next_seq_no es = append_seeing t t id next_seq_no es

  -- `i64::try_from(limit.get()).unwrap_or(i64::MAX)`
  unfoldable pub read : Tables → PersistenceId → SeqNo → ℕ → Attempt (List StoredEvent) Error
  unfolding into_bigint query collect_events
  read t id from_seq_no limit = to_attempt (do
    from ← into_bigint from_seq_no
    let limit' = min limit i64_max
    rows ←
        map_sqlx
          (query (fate (read_events id from limit')) (ok (select_events id from limit' t.events)))
    collect_events rows)

  save_at :
      PersistenceId → EncodedSnapshot → Result ℤ Error → Tables → Attempt (Unit {0}) Error × Tables
  unfolding execute
  save_at id snapshot (err e) t = (failed e, t)
  save_at id snapshot (ok n) t =
      let row = snapshot_row id n snapshot in
      let (saved, snapshots) =
        execute (fate (save_snapshot row)) (ok (tt, upsert_snapshot row t.snapshots)) t.snapshots in
      (to_attempt (map_sqlx saved), record t { snapshots = snapshots })

  unfoldable pub save :
      Tables → PersistenceId → SeqNo → EncodedSnapshot → Attempt (Unit {0}) Error × Tables
  unfolding save_at into_bigint
  save t id next_seq_no snapshot = save_at id snapshot (into_bigint next_seq_no) t

  unfoldable pub load : Tables → PersistenceId → Attempt (Option StoredSnapshot) Error
  unfolding query transpose
  load t id = to_attempt (do
    row ← map_sqlx (query (fate (load_snapshot id)) (ok (select_snapshot id t.snapshots)))
    transpose row)

  abbrev pub postgres_events : EventStore Tables
  postgres_events = record { Error = Error; append = append; read = read }

  abbrev pub postgres_snapshots : SnapshotStore Tables
  postgres_snapshots = record { Error = Error; save = save; load = load }
