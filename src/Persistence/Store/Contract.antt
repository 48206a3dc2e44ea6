-- ===== src/Persistence/Store/Contract.antt =====
-- tellus/src/persistence/store.rs and tellus/src/persistence_tests.rs: what the documentation and
-- the contract tests ask of an `EventStore`, as an interface for the code that uses one.
use tellus.Prelude.{
  ℕ, ◌+◌, ◌≤◌, ◌≡◌, ◌≢◌, ◌⊎◌, List, [], ◌∷◌, ◌++◌, length, take, drop, u64_max, done, failed,
}
use tellus.Prelude.Int.{i64_max, u16_max}
use tellus.Persistence.SeqNo.{SeqNo}
use tellus.Persistence.Id.{PersistenceId}
use tellus.Persistence.Store.{EncodedEvent, StoredEvent, conflict, EventStore}
use tellus.Persistence.Store.Numbered.{numbered}

-- A schema version is a `u16`.
abbrev pub VersionsFit : List EncodedEvent → Type 0
VersionsFit [] = Unit
VersionsFit (e ∷ es) = (e.schema_version ≤ u16_max) × VersionsFit es

-- `stream` is the abstract view: the events of an ID, in order. A real store may fail at any call,
-- also after it has written, so nothing is asked of a failure but that it is all or nothing. Of pages,
-- those are asked for whose limit an `i64` holds.
pub record IsEventStore {World : Type 0} (E : EventStore World) : Type 1 where
  pub Valid : World → Type 0
  pub stream : World → PersistenceId → List EncodedEvent
  pub append_ok :
      (w : World) (id : PersistenceId) (n : SeqNo) (es : List EncodedEvent)
      → Valid w
      → length (stream w id) + length es ≤ u64_max
      → (E.append w id n es).0 ≡ done tt
      → (n ≡ length (stream w id)) × (stream (E.append w id n es).1 id ≡ stream w id ++ es)
  pub append_conflict :
      (w : World) (id : PersistenceId) (n : SeqNo) (es : List EncodedEvent)
      → Valid w
      → (E.append w id n es).0 ≡ failed conflict
      → stream (E.append w id n es).1 id ≡ stream w id
  pub append_atomic :
      (w : World) (id : PersistenceId) (n : SeqNo) (es : List EncodedEvent)
      → Valid w
      → length (stream w id) + length es ≤ u64_max
      → (stream (E.append w id n es).1 id ≡ stream w id)
        ⊎ (stream (E.append w id n es).1 id ≡ stream w id ++ es)
  pub append_other :
      (w : World) (id j : PersistenceId) (n : SeqNo) (es : List EncodedEvent)
      → Valid w
      → id ≢ j
      → stream (E.append w id n es).1 j ≡ stream w j
  pub append_Valid :
      (w : World) (id : PersistenceId) (n : SeqNo) (es : List EncodedEvent)
      → Valid w
      → length (stream w id) + length es ≤ u64_max
      → Valid (E.append w id n es).1
  pub read_ok :
      (w : World) (id : PersistenceId) (from limit : ℕ) (page : List StoredEvent)
      → Valid w
      → limit ≤ i64_max
      → E.read w id from limit ≡ done page
      → page ≡ take limit (drop from (numbered 0 (stream w id)))
