-- ===== src/Persistence/InMemory/Together.antt =====
-- tellus/src/persistence/in_memory_store.rs: events and snapshots side by side in one store.
use tellus.Prelude.{
  ◌≡◌, ◌≢◌, refl, sym, ◌∙◌, inl, inr, Bool-cases, Option, some, List, length, arith, nat_eq, done,
  if◌then◌else◌,
}
use tellus.Prelude.Dict.{◌==◌, lookup-insert}
use tellus.Persistence.SeqNo.{SeqNo}
use tellus.Persistence.Id.{PersistenceId, id_key, id_beq_iff}
use tellus.Persistence.Store.{EncodedEvent, EncodedSnapshot, StoredSnapshot}
use tellus.Persistence.Store.Together.{AreStores}
use tellus.Persistence.InMemory.{
  InMemoryStore, events, append, save, load, in_memory_events, in_memory_snapshots,
}
use tellus.Persistence.InMemory.Contract.{stream, IsGapless, in_memory-IsEventStore}

pub stream-save :
    (s : InMemoryStore) (id j : PersistenceId) (n : SeqNo) (x : EncodedSnapshot)
    → stream (save s id n x).1 j ≡ stream s j
unfolding save events
stream-save s id j n x = refl

pub save-IsGapless :
    (s : InMemoryStore) (id : PersistenceId) (n : SeqNo) (x : EncodedSnapshot)
    → IsGapless s
    → IsGapless (save s id n x).1
unfolding save events
save-IsGapless s id n x v = record { gapless = v.gapless; fits = v.fits }

load-save-eq :
    (s : InMemoryStore) (id j : PersistenceId) (n : SeqNo) (x : EncodedSnapshot)
    → load (save s id n x).1 j
      ≡ (if id == j then done (some (record { next_seq_no = n; snapshot = x })) else load s j)
unfolding save load
load-save-eq s id j n x =
    ground (arith, lookup-insert id j (record { next_seq_no = n; snapshot = x }) s.snapshots)

-- A save replaces the stored snapshot of its ID, whatever the positions are, and nothing else.
pub load-save :
    (s : InMemoryStore) (id : PersistenceId) (n : SeqNo) (x : EncodedSnapshot)
    → (load (save s id n x).1 id ≡ done (some (record { next_seq_no = n; snapshot = x })))
      × ((j : PersistenceId) → id ≢ j → load (save s id n x).1 j ≡ load s j)
      × ((j : PersistenceId) → stream (save s id n x).1 j ≡ stream s j)
load-save s id n x = (
  ground (arith, load-save-eq s id id n x, id_beq_iff id id),
  λ j h. ground (arith, load-save-eq s id j n x, id_beq_iff id j),
  λ j. stream-save s id j n x,
)

pub loaded_saved :
    (s : InMemoryStore) (id : PersistenceId) (n : SeqNo) (x : EncodedSnapshot)
    (stored : Option StoredSnapshot)
    → load (save s id n x).1 id ≡ done stored
    → stored ≡ some (record { next_seq_no = n; snapshot = x })
loaded_saved s id n x stored h = cc (sym (load-save s id n x).0 ∙ h)

pub load-append :
    (s : InMemoryStore) (id j : PersistenceId) (n : SeqNo) (es : List EncodedEvent)
    → load (append s id n es).1 j ≡ load s j
unfolding append load
load-append s id j n es = elim (Bool-cases (nat_eq (length (events s id)) n)) [
  | inl e ↦ rw e refl
  | inr e ↦ rw e refl
]

abbrev pub in_memory-AreStores :
    AreStores in_memory_events in_memory_snapshots in_memory-IsEventStore
in_memory-AreStores = record {
  stream-save = stream-save;
  save-Valid = save-IsGapless;
  load-save = λ w id n x stored h. inr (loaded_saved w id n x stored h);
  load-append = load-append;
  load-save_other = λ w id j n x. (load-save w id n x).1 j;
}
