-- ===== src/Persistence/InMemory.antt =====
-- tellus/src/persistence/in_memory_store.rs: the two maps behind one value that the clones share.
-- No call panics while it holds a lock, so no lock is poisoned.
pub mod Gapless
pub mod Contract
pub mod Fencing
pub mod Together
pub mod Checked
mod Tests
use tellus.Prelude.{
  ℕ, suc, ◌+◌, ◌-◌, min, Option, none, some, List, [], ◌∷◌, ◌++◌, length, take, drop, nat_eq,
  saturating_add, Attempt, done, failed, if◌then◌else◌,
}
use tellus.Prelude.Dict.{Dict, lookup, insert}
use tellus.Persistence.SeqNo.{SeqNo, advanced_by}
use tellus.Persistence.Id.{PersistenceId, id_key}
use tellus.Persistence.Store.{
  EncodedEvent, StoredEvent, EncodedSnapshot, StoredSnapshot, AppendError, conflict, EventStore,
  SnapshotStore,
}

pub record InMemoryStore : Type 0 where
  pub streams : Dict PersistenceId (List StoredEvent)
  pub snapshots : Dict PersistenceId StoredSnapshot

-- `Default`
abbrev pub empty_store : InMemoryStore
empty_store = record { streams = []; snapshots = [] }

abbrev or_empty : Option (List StoredEvent) → List StoredEvent
or_empty none = []
or_empty (some stream) = stream

-- The stored events of the given ID, oldest first.
unfoldable pub events : InMemoryStore → PersistenceId → List StoredEvent
events s id = or_empty (lookup id s.streams)

-- The stored snapshot of the given ID, if there is one.
unfoldable pub snapshot : InMemoryStore → PersistenceId → Option StoredSnapshot
snapshot s id = lookup id s.snapshots

-- The loop that pushes the events, `n` its `enumerate` counter.
unfoldable pub push_all : SeqNo → ℕ → List EncodedEvent → List StoredEvent → List StoredEvent
unfolding advanced_by
push_all next n [] stream = stream
push_all next n (e ∷ es) stream =
    push_all next (suc n) es (stream ++ record { seq_no = advanced_by next n; event = e } ∷ [])

-- `entry(id).or_default()` leaves an empty stream behind also where the append is refused.
unfoldable pub append :
    InMemoryStore
    → PersistenceId
    → SeqNo
    → List EncodedEvent
    → Attempt (Unit {0}) (AppendError ⊥) × InMemoryStore
unfolding events push_all
append s id next_seq_no es =
    let stream = events s id in
    if nat_eq (length stream) next_seq_no
    then (done tt, record s { streams = insert id (push_all next_seq_no 0 es stream) s.streams })
    else (failed conflict, record s { streams = insert id stream s.streams })

pub page : SeqNo → ℕ → List StoredEvent → List StoredEvent
page from limit stream =
    let start = min from (length stream) in
    let end = min (saturating_add start limit) (length stream) in
    take (end - start) (drop start stream)

unfoldable pub read : InMemoryStore → PersistenceId → SeqNo → ℕ → Attempt (List StoredEvent) (⊥)
unfolding page events
read s id from_seq_no limit = done (page from_seq_no limit (events s id))

unfoldable pub save :
    InMemoryStore → PersistenceId → SeqNo → EncodedSnapshot → Attempt (Unit {0}) (⊥) × InMemoryStore
save s id next_seq_no encoded = (
  done tt,
  record s {
    snapshots = insert id (record { next_seq_no = next_seq_no; snapshot = encoded }) s.snapshots;
  },
)

unfoldable pub load : InMemoryStore → PersistenceId → Attempt (Option StoredSnapshot) (⊥)
load s id = done (lookup id s.snapshots)

abbrev pub in_memory_events : EventStore InMemoryStore
in_memory_events = record { Error = ⊥; append = append; read = read }

abbrev pub in_memory_snapshots : SnapshotStore InMemoryStore
in_memory_snapshots = record { Error = ⊥; save = save; load = load }
