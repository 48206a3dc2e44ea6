-- ===== src/Persistence/Checks.antt =====
-- tellus/src/persistence_tests.rs: the checks that the implementation of a store is tested with. A
-- check calls the store and panics where a property is violated. The IDs are handed in: the source
-- makes fresh ones of the clock and a counter.
pub mod Equality
pub mod Reliable
mod Racing
pub mod Passing
pub mod Snapshots
mod Tests
use tellus.Prelude.{
  ℕ, zero, suc, ◌+◌, ◌-◌, Bool, true, false, ◌&&◌, Option, none, some, List, [], ◌∷◌, map, length,
  nat_eq, Result, ok, err, ◌>>=◌, Attempt, done, failed, crashed, if◌then◌else◌,
}
use tellus.Prelude.Dict.{Key, nat_key, ◌==◌, list_eq}
use tellus.Persistence.SeqNo.{SeqNo}
use tellus.Persistence.Id.{PersistenceId, Text}
use tellus.Persistence.Store.{
  EncodedEvent, StoredEvent, EncodedSnapshot, StoredSnapshot, AppendError, conflict, EventStore,
  SnapshotStore,
}
use tellus.Persistence.Checks.Equality.{event_key, loaded_eq}

-- What a check panics with; the texts are left out.
pub data Violation : Type 0 where
  violation : Violation

abbrev pub Checked : Type 0 → Type 0
Checked A = Result A Violation

abbrev pub limit : ℕ
limit = 1024

abbrev pub writer_count : ℕ
writer_count = 8

abbrev event_manifest : Text
event_manifest =
    b'c' ∷ b'o' ∷ b'n' ∷ b't' ∷ b'r' ∷ b'a' ∷ b'c' ∷ b't' ∷ b'-' ∷ b'e' ∷ b'v' ∷ b'e' ∷ b'n' ∷ b't'
    ∷ []

abbrev snapshot_manifest : Text
snapshot_manifest =
    b'c' ∷ b'o' ∷ b'n' ∷ b't' ∷ b'r' ∷ b'a' ∷ b'c' ∷ b't' ∷ b'-' ∷ b's' ∷ b'n' ∷ b'a' ∷ b'p' ∷ b's'
    ∷ b'h' ∷ b'o' ∷ b't' ∷ []

-- The events numbered from `n` on; none of the checks asks for more than five.
pub samples_from : ℕ → ℕ → List EncodedEvent
samples_from n zero = []
samples_from n (suc count) =
    record { manifest = event_manifest; schema_version = n + 1; payload = 0xC0 ∷ n ∷ 0xFF ∷ [] }
    ∷ samples_from (suc n) count

unfoldable pub sample_events : ℕ → List EncodedEvent
unfolding samples_from
sample_events count = samples_from 0 count

writes_from : ℕ → ℕ → ℕ → List EncodedEvent
writes_from writer n zero = []
writes_from writer n (suc count) =
    record { manifest = event_manifest; schema_version = 1; payload = 0xC2 ∷ writer ∷ n ∷ [] }
    ∷ writes_from writer (suc n) count

unfoldable pub writer_events : ℕ → List EncodedEvent
unfolding writes_from
writer_events writer = writes_from writer 0 3

unfoldable pub sample_snapshot : ℕ → EncodedSnapshot
sample_snapshot tag = record {
  manifest = snapshot_manifest;
  schema_version = 1;
  payload = 0xC1 ∷ tag ∷ [];
}

-- `assert!`, `assert_eq!`
abbrev pub assert : Bool → Checked (Unit {0})
assert true = ok tt
assert false = err violation

-- `Result::expect`
abbrev pub expect : {A E : Type 0} → Attempt A E → Checked A
expect (done a) = ok a
expect (failed e) = err violation
expect crashed = err violation

abbrev is_conflict : {E : Type 0} → Attempt (Unit {0}) (AppendError E) → Bool
is_conflict (failed conflict) = true
is_conflict (failed (AppendError.store e)) = false
is_conflict (done _) = false
is_conflict crashed = false

abbrev pub numbers_of : List StoredEvent → List SeqNo
numbers_of stored = map (λ s. s.seq_no) stored

abbrev pub events_of : List StoredEvent → List EncodedEvent
events_of stored = map (λ s. s.event) stored

abbrev numbers_from : SeqNo → ℕ → List SeqNo
numbers_from n zero = []
numbers_from n (suc count) = n ∷ numbers_from (suc n) count

-- The loops over what was stored, with the event at the same index; an index out of range panics.
each_matches : List StoredEvent → List EncodedEvent → Checked (Unit {0})
each_matches [] es = ok tt
each_matches (s ∷ stored) [] = err violation
each_matches (s ∷ stored) (e ∷ es) = assert (s.event == e) >>= λ _. each_matches stored es

each_numbered : SeqNo → List StoredEvent → List EncodedEvent → Checked (Unit {0})
each_numbered n [] es = ok tt
each_numbered n (s ∷ stored) [] = err violation
each_numbered n (s ∷ stored) (e ∷ es) = do
  _ ← assert (nat_eq s.seq_no n)
  _ ← assert (s.event == e)
  each_numbered (suc n) stored es

module _ {World : Type 0} (E : EventStore World) where
  pub expect_append : World → PersistenceId → SeqNo → List EncodedEvent → Checked World
  expect_append w id n es = let (reply, w') = E.append w id n es in expect reply >>= λ _. ok w'

  -- The loop over the stale numbers.
  pub refused : World → PersistenceId → List SeqNo → List EncodedEvent → Checked World
  refused w id [] es = ok w
  refused w id (stale ∷ rest) es =
      let (reply, w') = E.append w id stale es in
      assert (is_conflict reply) >>= λ _. refused w' id rest es

  pub append_then_read_round_trips : World → PersistenceId → Checked World
  append_then_read_round_trips w id = do
    let events = sample_events 3
    w₁ ← expect_append w id 0 events
    stored ← expect (E.read w₁ id 0 limit)
    _ ← assert (nat_eq (length stored) (length events))
    _ ← each_numbered 0 stored events
    ok w₁

  pub conflicting_append_is_rejected : World → PersistenceId → Checked World
  conflicting_append_is_rejected w id = do
    let events = sample_events 2
    w₁ ← expect_append w id 0 events
    w₂ ← refused w₁ id (0 ∷ 1 ∷ 7 ∷ []) (sample_events 3)
    stored ← expect (E.read w₂ id 0 limit)
    _ ← assert (nat_eq (length stored) (length events))
    _ ← each_matches stored events
    ok w₂

  pub an_empty_append_is_fenced : World → PersistenceId → Checked World
  an_empty_append_is_fenced w id = do
    w₁ ← expect_append w id 0 []
    let events = sample_events 2
    w₂ ← expect_append w₁ id 0 events
    w₃ ← expect_append w₂ id 2 []
    w₄ ← refused w₃ id (0 ∷ 1 ∷ 7 ∷ []) []
    stored ← expect (E.read w₄ id 0 limit)
    _ ← assert (nat_eq (length stored) (length events))
    ok w₄

  -- The racing appends, in the order in which the store serves them: the winners and the number of
  -- conflicts.
  pub joined : ℕ → Attempt (Unit {0}) (AppendError E.Error) → List ℕ × ℕ → Checked (List ℕ × ℕ)
  joined writer (done _) (winners, conflicts) = ok (writer ∷ winners, conflicts)
  joined writer (failed conflict) (winners, conflicts) = ok (winners, conflicts + 1)
  joined writer (failed (AppendError.store e)) r = err violation
  joined writer crashed r = err violation

  pub race : World → PersistenceId → List ℕ → Checked ((List ℕ × ℕ) × World)
  unfolding joined
  race w id [] = ok (([], 0), w)
  race w id (writer ∷ rest) =
      let (reply, w') = E.append w id 0 (writer_events writer) in
      do (r, w'') ← race w' id rest; r' ← joined writer reply r; ok (r', w'')

  pub won : World → PersistenceId → List ℕ × ℕ → Checked World
  won w id ([], conflicts) = err violation
  won w id (winner ∷ (another ∷ winners), conflicts) = err violation
  won w id (winner ∷ [], conflicts) = do
    _ ← assert (nat_eq conflicts (writer_count - 1))
    stored ← expect (E.read w id 0 limit)
    let events = writer_events winner
    _ ← assert (list_eq (numbers_of stored) (numbers_from 0 (length events)))
    _ ← assert (list_eq (events_of stored) events)
    ok w

  pub concurrent_appends_are_fenced : World → PersistenceId → List ℕ → Checked World
  concurrent_appends_are_fenced w id writers = do (r, w₁) ← race w id writers; won w₁ id r

  pub streams_are_isolated : World → PersistenceId → PersistenceId → Checked World
  streams_are_isolated w id_a id_b = do
    w₁ ← expect_append w id_a 0 (samples_from 0 1)
    w₂ ← expect_append w₁ id_b 0 (sample_events 1)
    w₃ ← expect_append w₂ id_a 1 (samples_from 1 1)
    stored_a ← expect (E.read w₃ id_a 0 limit)
    stored_b ← expect (E.read w₃ id_b 0 limit)
    _ ← assert (list_eq (numbers_of stored_a) (0 ∷ 1 ∷ []))
    _ ← assert (list_eq (numbers_of stored_b) (0 ∷ []))
    _ ← assert (list_eq (events_of stored_a) (sample_events 2))
    _ ← assert (list_eq (events_of stored_b) (sample_events 1))
    ok w₃

  pub reads_are_paged_and_inclusive : World → PersistenceId → PersistenceId → Checked World
  reads_are_paged_and_inclusive w id unknown_id = do
    w₁ ← expect_append w id 0 (sample_events 5)
    page ← expect (E.read w₁ id 1 2)
    _ ← assert (list_eq (numbers_of page) (1 ∷ 2 ∷ []))
    tail ← expect (E.read w₁ id 3 limit)
    _ ← assert (list_eq (numbers_of tail) (3 ∷ 4 ∷ []))
    beyond ← expect (E.read w₁ id 5 limit)
    _ ← assert (nat_eq (length beyond) 0)
    unknown ← expect (E.read w₁ unknown_id 0 limit)
    _ ← assert (nat_eq (length unknown) 0)
    ok w₁

  -- Every check in turn, with the fresh IDs and the order of the race.
  pub event_store_contract : World → (ℕ → PersistenceId) → List ℕ → Checked World
  event_store_contract w ids writers = do
    w₁ ← append_then_read_round_trips w (ids 0)
    w₂ ← conflicting_append_is_rejected w₁ (ids 1)
    w₃ ← an_empty_append_is_fenced w₂ (ids 2)
    w₄ ← concurrent_appends_are_fenced w₃ (ids 3) writers
    w₅ ← streams_are_isolated w₄ (ids 4) (ids 5)
    reads_are_paged_and_inclusive w₅ (ids 6) (ids 7)

module _ {World : Type 0} (S : SnapshotStore World) where
  pub expect_save : World → PersistenceId → SeqNo → EncodedSnapshot → Checked World
  expect_save w id n x = let (reply, w') = S.save w id n x in expect reply >>= λ _. ok w'

  pub snapshots_round_trip_and_the_latest_wins : World → PersistenceId → Checked World
  unfolding expect_save
  snapshots_round_trip_and_the_latest_wins w id = do
    unknown ← expect (S.load w id)
    _ ← assert (loaded_eq unknown none)
    let first = sample_snapshot 1
    w₁ ← expect_save w id 3 first
    loaded ← expect (S.load w₁ id)
    _ ← assert (loaded_eq loaded (some (record { next_seq_no = 3; snapshot = first })))
    let second = sample_snapshot 2
    w₂ ← expect_save w₁ id 6 second
    loaded' ← expect (S.load w₂ id)
    _ ← assert (loaded_eq loaded' (some (record { next_seq_no = 6; snapshot = second })))
    ok w₂

  pub snapshot_store_contract : World → PersistenceId → Checked World
  snapshot_store_contract w id = snapshots_round_trip_and_the_latest_wins w id

-- An `Option` that is expected.
abbrev pub expect_some : {A : Type 0} → Option A → Checked A
expect_some none = err violation
expect_some (some a) = ok a

module _ {World : Type 0} (E : EventStore World) (S : SnapshotStore World) where
  pub snapshot_with_event_tail : World → PersistenceId → Checked World
  unfolding expect_append expect_save
  snapshot_with_event_tail w id = do
    w₁ ← expect_append E w id 0 (sample_events 5)
    w₂ ← expect_save S w₁ id 3 (sample_snapshot 1)
    loaded ← expect (S.load w₂ id)
    snapshot ← expect_some loaded
    _ ← assert (nat_eq snapshot.next_seq_no 3)
    tail ← expect (E.read w₂ id snapshot.next_seq_no limit)
    _ ← assert (list_eq (numbers_of tail) (3 ∷ 4 ∷ []))
    ok w₂
