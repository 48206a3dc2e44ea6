-- ===== src/Persistence/Checks/Snapshots.antt =====
-- tellus/src/persistence_tests.rs: reliable stores pass the checks of a snapshot store.
use tellus.Prelude.{◌≤◌, ◌≡◌, refl, ◌∙◌, none, some, [], done, ok, arith}
use tellus.Prelude.Int.{i64_max, u16_max}
use tellus.Prelude.Dict.{list_eq}
use tellus.Persistence.SeqNo.{SeqNo}
use tellus.Persistence.Id.{PersistenceId}
use tellus.Persistence.Store.{EncodedSnapshot, EventStore, SnapshotStore}
use tellus.Persistence.Store.Contract.{IsEventStore}
use tellus.Persistence.Store.Together.{AreStores}
use tellus.Persistence.Checks.{
  expect_save, limit, sample_events, sample_snapshot, snapshots_round_trip_and_the_latest_wins,
  snapshot_store_contract, snapshot_with_event_tail,
}
use tellus.Persistence.Checks.Reliable.{IsReliable, Reached, appends, reads}
use tellus.Persistence.Checks.Passing.{samples_from-VersionsFit}

-- No save or load fails, and what is saved is loaded.
pub record SavesReliably {World : Type 0} (S : SnapshotStore World) : Type 0 where
  pub save_done :
      (w : World) (id : PersistenceId) (n : SeqNo) (x : EncodedSnapshot)
      → n ≤ i64_max
      → (S.save w id n x).0 ≡ done tt
  pub load_saved :
      (w : World) (id : PersistenceId) (n : SeqNo) (x : EncodedSnapshot)
      → n ≤ i64_max
      → x.schema_version ≤ u16_max
      → S.load (S.save w id n x).1 id ≡ done (some (record { next_seq_no = n; snapshot = x }))

module _ {World : Type 0} (E : EventStore World) (S : SnapshotStore World) (L : IsEventStore E)
    (together : AreStores E S L) (reliable : IsReliable E L) (saves : SavesReliably S) where
  saved :
      (w : World) (id : PersistenceId) (n : SeqNo) (x : EncodedSnapshot)
      → n ≤ i64_max
      → expect_save S w id n x ≡ ok (S.save w id n x).1
  unfolding expect_save
  saved w id n x small = rw (saves.save_done w id n x small) refl

  latest_wins :
      (w : World) (id : PersistenceId)
      → S.load w id ≡ done none
      → (w' : World) × (snapshot_store_contract S w id ≡ ok w')
  unfolding snapshot_store_contract snapshots_round_trip_and_the_latest_wins sample_snapshot list_eq
  latest_wins w id unknown =
      let w₁ = (S.save w id 3 (sample_snapshot 1)).1 in
      (
        (S.save w₁ id 6 (sample_snapshot 2)).1,
        rw
            (
              unknown,
              saved w id 3 (sample_snapshot 1) (omega arith),
              saves.load_saved w id 3 (sample_snapshot 1) (omega arith) (omega arith),
              saved w₁ id 6 (sample_snapshot 2) (omega arith),
              saves.load_saved w₁ id 6 (sample_snapshot 2) (omega arith) (omega arith),
            )
            refl,
      )

  tail_read :
      (w : World) (id : PersistenceId)
      → L.Valid w
      → L.stream w id ≡ []
      → (w' : World) × (snapshot_with_event_tail E S w id ≡ ok w')
  unfolding snapshot_with_event_tail sample_snapshot sample_events list_eq
  tail_read w id v unused =
      let start : Reached E L reliable w id [] w = record {
        valid = v;
        own = unused;
        others = λ j ne. refl;
      } in
      let (w₁, e₁, r₁) =
        appends E L reliable w id [] w 0 (sample_events 5) start refl (omega arith) in
      let x = sample_snapshot 1 in
      let w₂ = (S.save w₁ id 3 x).1 in
      let read =
        reads E L reliable w₂ id (sample_events 5) 3 limit (together.save-Valid w₁ id 3 x r₁.valid)
          (together.stream-save w₁ id id 3 x ∙ r₁.own) (samples_from-VersionsFit 0 5 (omega arith))
          (omega arith) (omega arith) (omega arith) in
      (
        w₂,
        rw
            (
              e₁,
              saved w₁ id 3 x (omega arith),
              saves.load_saved w₁ id 3 x (omega arith) (omega arith),
              read,
            )
            refl,
      )

  -- Two stores with the laws of the interfaces, none of whose calls fails but by a conflict, pass the
  -- checks of a snapshot store and of the tail behind a snapshot, with an ID of which they hold
  -- nothing. Nothing is asked of positions above an `i64` and of versions above a `u16`.
  pub snapshot_checks :
      (w : World) (id : PersistenceId)
      → L.Valid w
      → L.stream w id ≡ []
      → S.load w id ≡ done none
      → ((w' : World) × (snapshot_store_contract S w id ≡ ok w'))
        × ((w' : World) × (snapshot_with_event_tail E S w id ≡ ok w'))
  snapshot_checks w id v unused unknown = (latest_wins w id unknown, tail_read w id v unused)
