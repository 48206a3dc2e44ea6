-- ===== src/Persistence/EventSourced.antt =====
-- tellus/src/persistence/event_sourced.rs and tellus/src/persistence.rs: an event-sourced actor, as
-- its user writes it, and what it is spawned with. Every method may panic; what a method does
-- through the context is not modelled.
use tellus.Prelude.{Option, Caught, Attempt}
use tellus.Actor.{Incoming}
use tellus.Persistence.Id.{PersistenceId}
use tellus.Persistence.Store.{EventStore, SnapshotStore}
use tellus.Persistence.Versioned.{Codec, Versioned}
use tellus.Persistence.Effect.{Effect}

-- `Out` is what a continuation emits.
pub record EventSourced : Type 1 where
  pub Command : Type 0
  pub Event : Type 0
  pub State : Type 0
  pub Snapshot : Type 0
  pub Error : Type 0
  pub Out : Type 0
  pub event : Versioned Event
  pub snapshot_type : Versioned Snapshot
  pub persistence_id : Caught PersistenceId
  pub init : Attempt State Error
  pub init_from_snapshot : Snapshot → Attempt State Error
  pub recovered : State → Attempt State Error
  pub handle : Incoming Command → State → Attempt (Effect Event State Out) Error
  pub apply : State → Event → Caught State
  pub snapshot : State → Attempt (Option Snapshot) Error

-- The codec is one value; here it stands at the two types that it is used at.
pub record Persistence (World : Type 0) (A : EventSourced) : Type 1 where
  pub event_store : EventStore World
  pub snapshot_store : SnapshotStore World
  pub event_codec : Codec A.Event
  pub snapshot_codec : Codec A.Snapshot
