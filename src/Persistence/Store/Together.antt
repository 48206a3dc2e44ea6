-- ===== src/Persistence/Store/Together.antt =====
-- tellus/src/persistence/store.rs: an event store and a snapshot store over one world. Neither
-- touches what the other keeps, and a save leaves the old snapshot or the new one.
use tellus.Prelude.{◌≡◌, ◌≢◌, ◌⊎◌, Option, some, List, done}
use tellus.Persistence.SeqNo.{SeqNo}
use tellus.Persistence.Id.{PersistenceId}
use tellus.Persistence.Store.{
  EncodedEvent, EncodedSnapshot, StoredSnapshot, EventStore, SnapshotStore,
}
use tellus.Persistence.Store.Contract.{IsEventStore}

pub record AreStores {World : Type 0} (E : EventStore World) (S : SnapshotStore World)
    (L : IsEventStore E) : Type 0 where
  pub stream-save :
      (w : World) (id j : PersistenceId) (n : SeqNo) (x : EncodedSnapshot)
      → L.stream (S.save w id n x).1 j ≡ L.stream w j
  pub save-Valid :
      (w : World) (id : PersistenceId) (n : SeqNo) (x : EncodedSnapshot)
      → L.Valid w
      → L.Valid (S.save w id n x).1
  pub load-save :
      (w : World) (id : PersistenceId) (n : SeqNo) (x : EncodedSnapshot)
      (stored : Option StoredSnapshot)
      → S.load (S.save w id n x).1 id ≡ done stored
      → (S.load w id ≡ done stored) ⊎ (stored ≡ some (record { next_seq_no = n; snapshot = x }))
  pub load-append :
      (w : World) (id j : PersistenceId) (n : SeqNo) (es : List EncodedEvent)
      → S.load (E.append w id n es).1 j ≡ S.load w j
  pub load-save_other :
      (w : World) (id j : PersistenceId) (n : SeqNo) (x : EncodedSnapshot)
      → id ≢ j
      → S.load (S.save w id n x).1 j ≡ S.load w j
