-- ===== src/Postgres/Together.antt =====
-- tellus-persistence-postgres/src/lib.rs: snapshots, beside the events of the same store.
use tellus.Prelude.{
  ◌≡◌, ◌≢◌, refl, ap, sym, ◌∙◌, ◌⊎◌, inl, inr, Option, some, List, [], ◌∷◌, arith, Result, ok, err,
  ◌>>=◌, done, if◌then◌else◌,
}
use tellus.Prelude.Int.{ℤ, pos}
use tellus.Prelude.Dict.{◌==◌}
use tellus.Persistence.SeqNo.{SeqNo}
use tellus.Persistence.Id.{PersistenceId, id_key, id_beq_iff}
use tellus.Persistence.Store.{EncodedEvent, EncodedSnapshot, StoredSnapshot}
use tellus.Persistence.Store.Together.{AreStores}
use tellus.Postgres.{
  Fate, Statement, Error, executed, refused, unreached, unanswered, load_snapshot, save_snapshot,
  append, save, load, save_at, snapshot_row, transpose, query, execute, into_bigint, map_sqlx,
  to_attempt, seq_no_out_of_range, postgres_events, postgres_snapshots,
}
use tellus.Postgres.Schema.{SnapshotRow, Tables, upsert_snapshot, select_snapshot}
use tellus.Postgres.Cases.{append_seeing-cases}
use tellus.Postgres.Contract.{stream, IsGapless, postgres-IsEventStore, to_attempt-eq-done}

select-upsert :
    (r : SnapshotRow) (j : PersistenceId) (rows : List SnapshotRow)
    → select_snapshot j (upsert_snapshot r rows)
      ≡ (if r.id == j then some r else select_snapshot j rows)
unfolding select_snapshot upsert_snapshot
select-upsert r j [] = refl
select-upsert r j (s ∷ rows) =
    ground
      (arith, id_beq_iff r.id j, id_beq_iff s.id r.id, id_beq_iff s.id j, select-upsert r j rows)

module _ (fate : Statement → Fate) (t : Tables) (id : PersistenceId) (n : SeqNo)
    (x : EncodedSnapshot) where
  abbrev pub saved : Tables
  saved = record t { snapshots = upsert_snapshot (snapshot_row id (pos n) x) t.snapshots }

  execute_save :
      (f : Fate) (after : List SnapshotRow)
      → ((execute f (ok (tt {0}, after)) t.snapshots).1 ≡ t.snapshots)
        ⊎ ((execute f (ok (tt {0}, after)) t.snapshots).1 ≡ after)
  unfolding execute
  execute_save executed after = inr refl
  execute_save (refused code) after = inl refl
  execute_save unreached after = inl refl
  execute_save unanswered after = inr refl

  save_at-cases :
      (next : Result ℤ Error)
      → (next ≡ ok (pos n)) ⊎ (next ≡ err seq_no_out_of_range)
      → ((save_at fate id x next t).1 ≡ t) ⊎ ((save_at fate id x next t).1 ≡ saved)
  unfolding save_at
  save_at-cases next (inr e) = inl (rw e refl)
  save_at-cases next (inl h) =
      elim (execute_save (fate (save_snapshot (snapshot_row id (pos n) x))) saved.snapshots) [
        | inl e ↦ inl (rw h (ap (λ s. record t { snapshots = s }) e))
        | inr e ↦ inr (rw h (ap (λ s. record t { snapshots = s }) e))
      ]

  -- A save writes its row or leaves the tables as they were.
  pub save-cases : ((save fate t id n x).1 ≡ t) ⊎ ((save fate t id n x).1 ≡ saved)
  unfolding save into_bigint
  save-cases = save_at-cases (into_bigint n) (ground arith)

  pub stream-save : (j : PersistenceId) → stream (save fate t id n x).1 j ≡ stream t j
  unfolding stream
  stream-save j = elim save-cases [ inl e ↦ rw e refl | inr e ↦ rw e refl ]

  pub save-IsGapless : IsGapless t → IsGapless (save fate t id n x).1
  unfolding stream
  save-IsGapless v = elim save-cases [
    | inl e ↦ rw e v
    | inr e ↦ rw e (record { gapless = v.gapless })
  ]

  -- What is loaded back is the snapshot that was saved, with its position.
  transpose_saved :
      (stored : Option StoredSnapshot)
      → transpose (some (snapshot_row id (pos n) x)) ≡ ok stored
      → stored ≡ some (record { next_seq_no = n; snapshot = x })
  unfolding transpose
  transpose_saved stored h = ground arith

  load_saved :
      (f : Fate) (stored : Option StoredSnapshot)
      → to_attempt (map_sqlx (query f (ok (some (snapshot_row id (pos n) x)))) >>= transpose)
        ≡ done stored
      → stored ≡ some (record { next_seq_no = n; snapshot = x })
  unfolding query
  load_saved executed stored h = transpose_saved stored (to_attempt-eq-done _ h)
  load_saved (refused code) stored h = cc
  load_saved unreached stored h = cc
  load_saved unanswered stored h = cc

  pub selected_saved : select_snapshot id saved.snapshots ≡ some (snapshot_row id (pos n) x)
  selected_saved =
      select-upsert (snapshot_row id (pos n) x) id t.snapshots ∙ rw ((id_beq_iff id id).1 refl) refl

  selected_other :
      (j : PersistenceId)
      → id ≢ j
      → select_snapshot j saved.snapshots ≡ select_snapshot j t.snapshots
  selected_other j other =
      ground (arith, select-upsert (snapshot_row id (pos n) x) j t.snapshots, id_beq_iff id j)

  pub load-save :
      (stored : Option StoredSnapshot)
      → load fate (save fate t id n x).1 id ≡ done stored
      → (load fate t id ≡ done stored) ⊎ (stored ≡ some (record { next_seq_no = n; snapshot = x }))
  unfolding load
  load-save stored h = elim save-cases [
    | inl e ↦ inl (ap (λ t'. load fate t' id) (sym e) ∙ h)
    | inr e ↦ inr (
        load_saved (fate (load_snapshot id)) stored (
          ap (λ row. to_attempt (map_sqlx (query (fate (load_snapshot id)) (ok row)) >>= transpose))
            (sym (ap (λ t'. select_snapshot id t'.snapshots) e ∙ selected_saved))
          ∙ h))
  ]

  pub load-save_other :
      (j : PersistenceId) → id ≢ j → load fate (save fate t id n x).1 j ≡ load fate t j
  unfolding load
  load-save_other j other = elim save-cases [
    | inl e ↦ ap (λ t'. load fate t' j) e
    | inr e ↦
        ap (λ row. to_attempt (map_sqlx (query (fate (load_snapshot j)) (ok row)) >>= transpose))
          (ap (λ t'. select_snapshot j t'.snapshots) e ∙ selected_other j other)
  ]

module _ (fate : Statement → Fate) (t : Tables) (id : PersistenceId) (n : SeqNo)
    (es : List EncodedEvent) where
  pub load-append : (j : PersistenceId) → load fate (append fate t id n es).1 j ≡ load fate t j
  unfolding load append
  load-append j = elim (append_seeing-cases fate t t id n es) [
    | inl a ↦ rw a.table refl
    | inr u ↦ rw u.table refl
  ]

module _ (fate : Statement → Fate) where
  abbrev pub postgres-AreStores :
      AreStores (postgres_events fate) (postgres_snapshots fate) (postgres-IsEventStore fate)
  postgres-AreStores = record {
    stream-save = λ t id j n x. stream-save fate t id n x j;
    save-Valid = save-IsGapless fate;
    load-save = load-save fate;
    load-append = λ t id j n es. load-append fate t id n es j;
    load-save_other = λ t id j n x. load-save_other fate t id n x j;
  }
