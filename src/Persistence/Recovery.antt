-- ===== src/Persistence/Recovery.antt =====
-- tellus/src/persistence/spawn.rs, `recover` and what it calls: a snapshot, if there is one that
-- decodes, and then the events behind it, in pages.
pub mod Replay
pub mod Loop
pub mod Snapshots
mod Tests
use tellus.Prelude.{
  ℕ, zero, suc, Bool, Option, none, some, List, [], ◌∷◌, length, ltb, nat_eq, Attempt, done, failed,
  crashed, catch_and_log, catch_panic_and_log, bind_attempt, or_crash, map_failed, if◌then◌else◌,
}
use tellus.Persistence.SeqNo.{SeqNo, succ, zero_seq_no}
use tellus.Persistence.Id.{PersistenceId}
use tellus.Persistence.Store.{StoredEvent, EncodedEvent, StoredSnapshot, EventStore, SnapshotStore}
use tellus.Persistence.Versioned.{DecodeError, decode_versioned}
use tellus.Persistence.EventSourced.{EventSourced, Persistence}

pub data ReplayError : Type 0 where
  decode : DecodeError → ReplayError
  gap : SeqNo → SeqNo → ReplayError

-- `REPLAY_PAGE`
unfoldable pub page_limit : ℕ
page_limit = 512

pub record Recovered (State : Type 0) : Type 0 where
  pub id : PersistenceId
  pub state : State
  pub next_seq_no : SeqNo

module _ (A : EventSourced) where
  -- The event of a stored record.
  abbrev pub decode_event : EncodedEvent → Attempt A.Event DecodeError
  decode_event e = decode_versioned A.event e.manifest e.schema_version e.payload

  -- The closure of the `try_fold`.
  unfoldable pub replay_one : A.State → SeqNo → StoredEvent → Attempt (A.State × SeqNo) ReplayError
  replay_one state next stored =
      if nat_eq stored.seq_no next
      then (bind_attempt (map_failed decode (decode_event stored.event))
          λ event. bind_attempt (or_crash (A.apply state event)) λ state'. done (state', succ next))
      else failed (gap stored.seq_no next)

  unfoldable pub replay_page :
      A.State → SeqNo → List StoredEvent → Attempt (A.State × SeqNo) ReplayError
  replay_page state next [] = done (state, next)
  replay_page state next (stored ∷ page) =
      bind_attempt (replay_one state next stored) λ (state', next'). replay_page state' next' page

  unfoldable pub keep_decoded : SeqNo → Attempt A.Snapshot DecodeError → Option (A.Snapshot × SeqNo)
  keep_decoded n (done s) = some (s, n)
  keep_decoded n (failed e) = none
  keep_decoded n crashed = none

  -- A snapshot that does not decode, or whose decoding panics, is discarded.
  unfoldable pub decode_snapshot : Option StoredSnapshot → Option (A.Snapshot × SeqNo)
  unfolding keep_decoded
  decode_snapshot none = none
  decode_snapshot (some stored) =
      let encoded = stored.snapshot in
      keep_decoded stored.next_seq_no
        (decode_versioned A.snapshot_type encoded.manifest encoded.schema_version encoded.payload)

  unfoldable pub starting_at : SeqNo → Option A.State → Option (A.State × SeqNo)
  starting_at n none = none
  starting_at n (some s) = some (s, n)

  unfoldable pub initial : Option (A.Snapshot × SeqNo) → Option (A.State × SeqNo)
  unfolding starting_at
  initial none = starting_at zero_seq_no (catch_and_log A.init)
  initial (some (snapshot, n)) = starting_at n (catch_and_log (A.init_from_snapshot snapshot))

module _ {World : Type 0} (A : EventSourced) (P : Persistence World A) where
  -- The loop over the pages: `none` means that the fuel ran out, `some none` that it failed.
  unfoldable pub replay_from :
      ℕ → World → PersistenceId → A.State → SeqNo → Option (Option (A.State × SeqNo))
  replay_from zero w id state next = none
  replay_from (suc fuel) w id state next =
      elim (catch_and_log (P.event_store.read w id next page_limit)) [
        | none ↦ some none
        | some page ↦ elim (catch_and_log (replay_page A state next page)) [
          | none ↦ some none
          | some (state', next') ↦ elim (ltb (length page) page_limit) [
            | Bool.true ↦ some (some (state', next'))
            | Bool.false ↦ replay_from fuel w id state' next'
          ]
        ]
      ]

  with_id : PersistenceId → Option (Option (A.State × SeqNo)) → Option (Option (Recovered A.State))
  with_id id none = none
  with_id id (some none) = some none
  with_id id (some (some (state, n))) =
      some (some (record { id = id; state = state; next_seq_no = n }))

  replay_initial :
      ℕ → World → PersistenceId → Option (A.State × SeqNo) → Option (Option (Recovered A.State))
  unfolding with_id
  replay_initial fuel w id none = some none
  replay_initial fuel w id (some (state, n)) = with_id id (replay_from fuel w id state n)

  recover_from :
      ℕ
      → World
      → PersistenceId
      → Option (Option StoredSnapshot)
      → Option (Option (Recovered A.State))
  unfolding replay_initial
  recover_from fuel w id none = some none
  recover_from fuel w id (some loaded) =
      replay_initial fuel w id (initial A (decode_snapshot A loaded))

  recover_as : ℕ → World → Option PersistenceId → Option (Option (Recovered A.State))
  unfolding recover_from
  recover_as fuel w none = some none
  recover_as fuel w (some id) = recover_from fuel w id (catch_and_log (P.snapshot_store.load w id))

  unfoldable pub recover : ℕ → World → Option (Option (Recovered A.State))
  unfolding recover_as
  recover fuel w = recover_as fuel w (catch_panic_and_log A.persistence_id)
