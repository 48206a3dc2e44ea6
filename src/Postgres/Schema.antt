-- ===== src/Postgres/Schema.antt =====
-- tellus-persistence-postgres/migrations and the statements of tellus-persistence-postgres/src/lib.rs:
-- what each of them does to the two tables, by its SQL text. A table is the list of its rows.
use tellus.Prelude.{
  ℕ, zero, suc, Bool, false, ◌&&◌, ◌||◌, Option, none, some, List, [], ◌∷◌, ◌++◌, take, length,
  nat_eq, Result, ok, err, if◌then◌else◌,
}
use tellus.Prelude.Int.{ℤ, pos, negsuc, i64_max, int_eq, int_leb}
use tellus.Prelude.Dict.{◌==◌}
use tellus.Persistence.Id.{PersistenceId, id_key, Text}
use tellus.Persistence.Store.{Payload}

-- `id` is the pair of the columns `entity_type` and `entity_id`.
pub record EventRow : Type 0 where
  pub id : PersistenceId
  pub seq_no : ℤ
  pub manifest : Text
  pub schema_version : ℤ
  pub payload : Payload

pub record SnapshotRow : Type 0 where
  pub id : PersistenceId
  pub next_seq_no : ℤ
  pub manifest : Text
  pub schema_version : ℤ
  pub payload : Payload

pub record Tables : Type 0 where
  pub events : List EventRow
  pub snapshots : List SnapshotRow

-- The codes of the errors that the statements can run into.
abbrev pub unique_violation : Text
unique_violation = b'2' ∷ b'3' ∷ b'5' ∷ b'0' ∷ b'5' ∷ []

abbrev pub out_of_range : Text
out_of_range = b'2' ∷ b'2' ∷ b'0' ∷ b'0' ∷ b'3' ∷ []

-- `WHERE entity_type = $1 AND entity_id = $2`
unfoldable pub rows_of : PersistenceId → List EventRow → List EventRow
rows_of id [] = []
rows_of id (r ∷ rs) = let rest = rows_of id rs in if r.id == id then r ∷ rest else rest

larger : ℤ → Option ℤ → ℤ
larger a none = a
larger a (some b) = if int_leb a b then b else a

-- `MAX(seq_no)`
unfoldable pub max_seq_no : List EventRow → Option ℤ
unfolding larger
max_seq_no [] = none
max_seq_no (r ∷ rs) = some (larger r.seq_no (max_seq_no rs))

-- `+ 1` on a `BIGINT`, which the largest one has not.
unfoldable pub bigint_succ : ℤ → Result ℤ Text
bigint_succ (pos n) = if nat_eq n i64_max then err out_of_range else ok (pos (suc n))
bigint_succ (negsuc zero) = ok (pos 0)
bigint_succ (negsuc (suc n)) = ok (negsuc n)

-- `COALESCE(MAX(seq_no) + 1, 0)`
unfoldable pub coalesce_succ : Option ℤ → Result ℤ Text
unfolding bigint_succ
coalesce_succ none = ok (pos 0)
coalesce_succ (some m) = bigint_succ m

unfoldable pub select_next : PersistenceId → List EventRow → Result ℤ Text
unfolding coalesce_succ max_seq_no rows_of
select_next id rows = coalesce_succ (max_seq_no (rows_of id rows))

-- `PRIMARY KEY (entity_type, entity_id, seq_no)`
unfoldable pub has_event_key : EventRow → List EventRow → Bool
has_event_key r [] = false
has_event_key r (s ∷ rows) = (s.id == r.id && int_eq s.seq_no r.seq_no) || has_event_key r rows

-- The insertion of rows, one after the other; a statement that fails leaves none behind.
unfoldable pub insert_rows : List EventRow → List EventRow → Result (List EventRow) Text
unfolding has_event_key
insert_rows [] table = ok table
insert_rows (r ∷ rs) table =
    let rest = insert_rows rs (table ++ r ∷ []) in
    if has_event_key r table then err unique_violation else rest

inserted : ℕ → Result (List EventRow) Text → Result (ℕ × List EventRow) Text
inserted n (ok table) = ok (n, table)
inserted n (err code) = err code

insert_if : Result ℤ Text → ℤ → List EventRow → List EventRow → Result (ℕ × List EventRow) Text
unfolding insert_rows inserted
insert_if (err code) expected rows table = err code
insert_if (ok next) expected rows table =
    if int_eq next expected then inserted (length rows) (insert_rows rows table) else ok (0, table)

-- `INSERT ... SELECT ... WHERE (SELECT COALESCE(MAX(seq_no) + 1, 0) ...) = $7`, and how many rows it
-- affects. The condition sees the table `seen` as the statement starts; the primary key is checked
-- against `table`, what it is as the rows go in.
unfoldable pub insert_events :
    PersistenceId
    → List EventRow
    → ℤ
    → List EventRow
    → List EventRow
    → Result (ℕ × List EventRow) Text
unfolding insert_if select_next
insert_events id rows expected seen table = insert_if (select_next id seen) expected rows table

-- `seq_no >= $3`
unfoldable pub rows_from : ℤ → List EventRow → List EventRow
rows_from from [] = []
rows_from from (r ∷ rs) =
    let rest = rows_from from rs in if int_leb from r.seq_no then r ∷ rest else rest

unfoldable pub put_in_order : EventRow → List EventRow → List EventRow
put_in_order r [] = r ∷ []
put_in_order r (s ∷ rows) =
    let rest = s ∷ put_in_order r rows in if int_leb r.seq_no s.seq_no then r ∷ s ∷ rows else rest

-- `ORDER BY seq_no`
unfoldable pub order_by_seq_no : List EventRow → List EventRow
unfolding put_in_order
order_by_seq_no [] = []
order_by_seq_no (r ∷ rs) = put_in_order r (order_by_seq_no rs)

unfoldable pub select_events : PersistenceId → ℤ → ℕ → List EventRow → List EventRow
unfolding order_by_seq_no rows_from rows_of
select_events id from limit rows = take limit (order_by_seq_no (rows_from from (rows_of id rows)))

-- `INSERT INTO snapshots ... ON CONFLICT (entity_type, entity_id) DO UPDATE`
unfoldable pub upsert_snapshot : SnapshotRow → List SnapshotRow → List SnapshotRow
upsert_snapshot r [] = r ∷ []
upsert_snapshot r (s ∷ rows) = if s.id == r.id then r ∷ rows else s ∷ upsert_snapshot r rows

unfoldable pub select_snapshot : PersistenceId → List SnapshotRow → Option SnapshotRow
select_snapshot id [] = none
select_snapshot id (s ∷ rows) = if s.id == id then some s else select_snapshot id rows
