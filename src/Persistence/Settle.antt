-- ===== src/Persistence/Settle.antt =====
-- tellus/src/persistence/spawn.rs, `settle` and what it calls: make the events durable, apply them,
-- run the continuations, save a snapshot. What a value's destructor does is not modelled.
pub mod Apply
pub mod Persist
pub mod Live
pub mod Invariant
pub mod Durable
pub mod Failure
pub mod Restarts
pub mod AsTested
pub mod Poison
mod Tests
use tellus.Prelude.{
  ℕ, suc, Bool, true, false, Option, none, some, List, [], ◌∷◌, length, Attempt, done, failed,
  crashed, Caught, returned, panicked, catch_and_log, catch_panic_and_log, bind_attempt, map_failed,
}
use tellus.Persistence.SeqNo.{SeqNo, advanced_by}
use tellus.Persistence.Id.{PersistenceId}
use tellus.Persistence.Store.{
  Payload, EncodedEvent, EncodedSnapshot, EventStore, SnapshotStore, AppendError,
}
use tellus.Persistence.Versioned.{Codec, Versioned, EncodeError}
use tellus.Persistence.Effect.{Effect, Then}
use tellus.Persistence.EventSourced.{EventSourced, Persistence}

pub record Settled (State : Type 0) : Type 0 where
  pub state : State
  pub next_seq_no : SeqNo
  pub stop : Bool

pub data SnapshotError (E : Type 0) : Type 0 where
  actor : E → SnapshotError E
  encode : EncodeError → SnapshotError E

-- What a call leaves: its result, the world, and what the continuations have emitted.
pub record Settling (World State Out : Type 0) : Type 0 where
  pub outcome : Option (Settled State)
  pub world : World
  pub emitted : List Out

emit : {Out : Type 0} → Caught Out → List Out × Bool → List Out × Bool
emit (returned o) (os, completed) = (o ∷ os, completed)
emit panicked rest = ([], false)

module _ {State Out : Type 0} where
  -- The continuations in the order in which they were added, up to one that panics.
  unfoldable pub run_thens : State → List (Then State Out) → List Out × Bool
  unfolding emit
  run_thens s [] = ([], true)
  run_thens s (f ∷ fs) = let rest = run_thens s fs in emit (f s) rest

module _ (A : EventSourced) where
  -- A payload with the manifest and the current version of the event type.
  abbrev pub with_tags : Payload → Attempt EncodedEvent EncodeError
  with_tags payload =
      done (record {
        manifest = A.event.manifest;
        schema_version = A.event.version;
        payload = payload;
      })

  abbrev pub with_snapshot_tags : Payload → Attempt (Option EncodedSnapshot) (SnapshotError A.Error)
  with_snapshot_tags payload = done (
      some (record {
        manifest = A.snapshot_type.manifest;
        schema_version = A.snapshot_type.version;
        payload = payload;
      }))

  unfoldable pub apply_events : A.State → List A.Event → Caught A.State
  apply_events s [] = returned s
  apply_events s (e ∷ es) = elim (A.apply s e) [
    | returned s' ↦ apply_events s' es
    | panicked ↦ panicked
  ]

module _ {World : Type 0} (A : EventSourced) (P : Persistence World A) where
  unfoldable pub encode_event : A.Event → Attempt EncodedEvent EncodeError
  encode_event e = bind_attempt (P.event_codec.encode e) (with_tags A)

  unfoldable pub encode_events : List A.Event → Attempt (List EncodedEvent) EncodeError
  unfolding encode_event
  encode_events [] = done []
  encode_events (e ∷ es) =
      bind_attempt (encode_event e) λ x. bind_attempt (encode_events es) λ xs. done (x ∷ xs)

  pub encode_some : Option A.Snapshot → Attempt (Option EncodedSnapshot) (SnapshotError A.Error)
  encode_some none = done none
  encode_some (some snapshot) =
      bind_attempt (map_failed encode (P.snapshot_codec.encode snapshot)) (with_snapshot_tags A)

  unfoldable pub encode_snapshot :
      A.State → Attempt (Option EncodedSnapshot) (SnapshotError A.Error)
  unfolding encode_some
  encode_snapshot s = bind_attempt (map_failed actor (A.snapshot s)) encode_some

  save_some : World → PersistenceId → SeqNo → Option (Option EncodedSnapshot) → World
  save_some w id n none = w
  save_some w id n (some none) = w
  save_some w id n (some (some snapshot)) = (P.snapshot_store.save w id n snapshot).1

  -- A snapshot that cannot be taken or saved is a warning; its failure ends nothing.
  unfoldable pub save_snapshot : World → PersistenceId → A.State → SeqNo → World
  unfolding save_some
  save_snapshot w id s n = save_some w id n (catch_and_log (encode_snapshot s))

  applied : World → SeqNo → List A.Event → Option A.State → Option (A.State × SeqNo) × World
  applied w n events none = (none, w)
  applied w n events (some s) = (some (s, advanced_by n (length events)), w)

  apply_appended :
      A.State → SeqNo → List A.Event → Option (Unit {0}) × World → Option (A.State × SeqNo) × World
  unfolding applied
  apply_appended s n events (none, w) = (none, w)
  apply_appended s n events (some _, w) =
      applied w n events (catch_panic_and_log (apply_events A s events))

  append_encoded :
      World
      → PersistenceId
      → A.State
      → SeqNo
      → List A.Event
      → Option (List EncodedEvent)
      → Option (A.State × SeqNo) × World
  unfolding apply_appended
  append_encoded w id s n events none = (none, w)
  append_encoded w id s n events (some encoded) =
      let (reply, w') = P.event_store.append w id n encoded in
      apply_appended s n events (catch_and_log reply, w')

  -- The first half of `settle`, for an effect with events.
  unfoldable pub persist :
      World → PersistenceId → A.State → SeqNo → List A.Event → Option (A.State × SeqNo) × World
  unfolding append_encoded
  persist w id s n events = append_encoded w id s n events (catch_and_log (encode_events events))

  after_thens :
      World
      → PersistenceId
      → A.State
      → SeqNo
      → Bool
      → Bool
      → List A.Out × Bool
      → Settling World A.State A.Out
  after_thens w id s n stop appended (out, false) = record {
    outcome = none;
    world = w;
    emitted = out;
  }
  after_thens w id s n stop false (out, true) = record {
    outcome = some (record { state = s; next_seq_no = n; stop = stop });
    world = w;
    emitted = out;
  }
  after_thens w id s n stop true (out, true) = record {
    outcome = some (record { state = s; next_seq_no = n; stop = stop });
    world = save_snapshot w id s n;
    emitted = out;
  }

  -- The second half.
  after_events :
      PersistenceId
      → Effect A.Event A.State A.Out
      → Bool
      → Option (A.State × SeqNo) × World
      → Settling World A.State A.Out
  unfolding after_thens
  after_events id effect appended (none, w) = record { outcome = none; world = w; emitted = [] }
  after_events id effect appended (some (s, n), w) =
      after_thens w id s n effect.stop appended (run_thens s effect.thens)

  settle_events :
      World
      → PersistenceId
      → A.State
      → SeqNo
      → Effect A.Event A.State A.Out
      → List A.Event
      → Settling World A.State A.Out
  unfolding after_events persist
  settle_events w id s n effect [] = after_events id effect false (some (s, n), w)
  settle_events w id s n effect (e ∷ es) = after_events id effect true (persist w id s n (e ∷ es))

  unfoldable pub settle :
      World
      → PersistenceId
      → A.State
      → SeqNo
      → Effect A.Event A.State A.Out
      → Settling World A.State A.Out
  unfolding settle_events
  settle w id s n effect = settle_events w id s n effect effect.events
