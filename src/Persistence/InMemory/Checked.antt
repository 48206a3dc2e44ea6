-- ===== src/Persistence/InMemory/Checked.antt =====
-- tellus/src/persistence/in_memory_store.rs with tellus/src/persistence_tests.rs: the in-memory store
-- in the hands of the checks.
use tellus.Prelude.{refl, ap, sym, ◌∙◌, done, arith}
use tellus.Prelude.Dict.{lookup-insert}
use tellus.Persistence.Id.{id_key, id_beq_iff}
use tellus.Persistence.InMemory.{in_memory_events, in_memory_snapshots, save, load}
use tellus.Persistence.InMemory.Contract.{
  append_fenced, read-eq, length-events, in_memory-IsEventStore,
}
use tellus.Persistence.Checks.Reliable.{IsReliable}
use tellus.Persistence.Checks.Snapshots.{SavesReliably}

pub in_memory-IsReliable : IsReliable in_memory_events in_memory-IsEventStore
in_memory-IsReliable = record {
  append_done = λ w id es v room. (append_fenced w id _ es).0.1 (sym (length-events w id));
  append_stale = λ w id n es v ne short small.
      (append_fenced w id n es).1.1 (λ e. ne (e ∙ length-events w id));
  read_done = λ w id from limit v versions short le small. (_, read-eq w id from limit v);
}

pub in_memory-SavesReliably : SavesReliably in_memory_snapshots
unfolding save load
in_memory-SavesReliably = record {
  save_done = λ w id n x small. refl;
  load_saved = λ w id n x small fits.
      ap done (lookup-insert id id _ w.snapshots ∙ ground (arith, id_beq_iff id id));
}
