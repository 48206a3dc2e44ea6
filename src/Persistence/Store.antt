-- ===== src/Persistence/Store.antt =====
-- tellus/src/persistence/store.rs: what the stores keep, and the two interfaces. A store's calls
-- read and change a world that its clones share; they may fail, and they may panic.
pub mod Numbered
pub mod Contract
pub mod Together
use tellus.Prelude.{ℕ, Option, none, List, Attempt, done}
use tellus.Persistence.SeqNo.{SeqNo}
use tellus.Persistence.Id.{PersistenceId, Text}

-- Payload bytes.
abbrev pub Payload : Type 0
Payload = List ℕ

-- tellus/src/persistence/schema_version.rs, a `u16`.
abbrev pub SchemaVersion : Type 0
SchemaVersion = ℕ

pub record EncodedEvent : Type 0 where
  pub manifest : Text
  pub schema_version : SchemaVersion
  pub payload : Payload

pub record StoredEvent : Type 0 where
  pub seq_no : SeqNo
  pub event : EncodedEvent

pub record EncodedSnapshot : Type 0 where
  pub manifest : Text
  pub schema_version : SchemaVersion
  pub payload : Payload

pub record StoredSnapshot : Type 0 where
  pub next_seq_no : SeqNo
  pub snapshot : EncodedSnapshot

pub data AppendError (E : Type 0) : Type 0 where
  conflict : AppendError E
  store : E → AppendError E

pub record EventStore (World : Type 0) : Type 1 where
  pub Error : Type 0
  pub append :
      World
      → PersistenceId
      → SeqNo
      → List EncodedEvent
      → Attempt (Unit {0}) (AppendError Error) × World
  pub read : World → PersistenceId → SeqNo → ℕ → Attempt (List StoredEvent) Error

pub record SnapshotStore (World : Type 0) : Type 1 where
  pub Error : Type 0
  pub save : World → PersistenceId → SeqNo → EncodedSnapshot → Attempt (Unit {0}) Error × World
  pub load : World → PersistenceId → Attempt (Option StoredSnapshot) Error

-- `NoSnapshots`
abbrev pub no_snapshots : (World : Type 0) → SnapshotStore World
no_snapshots World = record {
  Error = ⊥;
  save = λ w id next_seq_no snapshot. (done tt, w);
  load = λ w id. done none;
}
