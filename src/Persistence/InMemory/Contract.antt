-- ===== src/Persistence/InMemory/Contract.antt =====
-- tellus/src/persistence/in_memory_store.rs: the in-memory store keeps the contract of an
-- `EventStore`, and does not fail but by a conflict.
use tellus.Prelude.{
  ℕ, suc, ◌+◌, ◌≤◌, ◌≡◌, ◌≢◌, refl, ap, sym, ◌∙◌, ◌⊎◌, ◌↔◌, inl, inr, Bool-cases, List, [], ◌∷◌,
  ◌++◌, map, length, length-map, length-append, take, drop, arith, nat_eq, u64_max, done, failed,
  if◌then◌else◌,
}
use tellus.Prelude.Int.{i64_max}
use tellus.Prelude.Dict.{◌==◌, lookup}
use tellus.Persistence.SeqNo.{SeqNo}
use tellus.Persistence.Id.{PersistenceId, id_key, id_beq_iff}
use tellus.Persistence.Store.{EncodedEvent, StoredEvent, conflict}
use tellus.Persistence.Store.Numbered.{numbered, numbered_at, numbered-append}
use tellus.Persistence.Store.Contract.{IsEventStore}
use tellus.Persistence.InMemory.{
  InMemoryStore, events, push_all, append, read, empty_store, in_memory_events,
}
use tellus.Persistence.InMemory.Gapless.{events-append, push_all-eq-append, page-eq-take-drop}

-- The events without their numbers.
abbrev pub stream : InMemoryStore → PersistenceId → List EncodedEvent
stream s id = map (λ e. e.event) (events s id)

-- Each stream is numbered from 0 with no gap, and is no longer than a `u64` counts.
pub record IsGapless (s : InMemoryStore) : Type 0 where
  pub gapless : (id : PersistenceId) → events s id ≡ numbered 0 (stream s id)
  pub fits : (id : PersistenceId) → length (stream s id) ≤ u64_max

map-numbered : (n : ℕ) (es : List EncodedEvent) → map (λ e. e.event) (numbered n es) ≡ es
map-numbered n [] = refl
map-numbered n (e ∷ es) = ap (◌∷◌ e) (map-numbered (suc n) es)

pub length-events :
    (s : InMemoryStore) (id : PersistenceId) → length (events s id) ≡ length (stream s id)
length-events s id = sym (length-map _ (events s id))

-- What an append leaves of each stream.
abbrev after_append :
    InMemoryStore → PersistenceId → PersistenceId → ℕ → List EncodedEvent → List EncodedEvent
after_append s id j n es =
    if id == j
    then if nat_eq (length (stream s id)) n then stream s id ++ es else stream s id
    else stream s j

push_all-numbered :
    (s : InMemoryStore) (id : PersistenceId) (n : ℕ) (es : List EncodedEvent)
    → IsGapless s
    → length (stream s id) + length es ≤ u64_max
    → length (stream s id) ≡ n
    → push_all n 0 es (events s id) ≡ numbered 0 (stream s id ++ es)
push_all-numbered s id n es v room e =
    push_all-eq-append n 0 es (events s id) (omega arith)
    ∙ ap (λ xs. xs ++ numbered (n + 0) es) (v.gapless id)
    ∙ ap (◌++◌ (numbered 0 (stream s id)))
        (numbered_at {m = n + 0} {n = 0 + length (stream s id)} es (omega arith))
    ∙ sym (numbered-append 0 (stream s id) es)

events-append_numbered :
    (s : InMemoryStore) (id j : PersistenceId) (n : ℕ) (es : List EncodedEvent)
    → IsGapless s
    → length (stream s id) + length es ≤ u64_max
    → events (append s id n es).1 j ≡ numbered 0 (after_append s id j n es)
events-append_numbered s id j n es v room = ground (
  arith,
  events-append s id j n es,
  length-events s id,
  push_all-numbered s id n es v room,
  v.gapless id,
  v.gapless j,
)

stream-append :
    (s : InMemoryStore) (id j : PersistenceId) (n : ℕ) (es : List EncodedEvent)
    → IsGapless s
    → length (stream s id) + length es ≤ u64_max
    → stream (append s id n es).1 j ≡ after_append s id j n es
stream-append s id j n es v room =
    ap (map (λ e. e.event)) (events-append_numbered s id j n es v room) ∙ map-numbered 0 _

-- An append keeps every stream gapless, whether it is accepted or refused.
pub append-IsGapless :
    (s : InMemoryStore) (id : PersistenceId) (n : SeqNo) (es : List EncodedEvent)
    → IsGapless s
    → length (stream s id) + length es ≤ u64_max
    → IsGapless (append s id n es).1
append-IsGapless s id n es v room = record {
  gapless = λ j.
      events-append_numbered s id j n es v room
      ∙ ap (numbered 0) (sym (stream-append s id j n es v room));
  fits = λ j.
      rw (stream-append s id j n es v room)
        (ground (arith, length-append (stream s id) es, v.fits id, v.fits j));
}

append_reply :
    (s : InMemoryStore) (id : PersistenceId) (n : SeqNo) (es : List EncodedEvent)
    → (append s id n es).0 ≡ (if nat_eq (length (events s id)) n then done tt else failed conflict)
unfolding append
append_reply s id n es = ground arith

-- The reply is a conflict exactly where the number is not the length of the stream, above or below,
-- also for an append of nothing; a conflict leaves every stream as it was.
pub append_fenced :
    (s : InMemoryStore) (id : PersistenceId) (n : SeqNo) (es : List EncodedEvent)
    → (((append s id n es).0 ≡ done tt) ↔ (n ≡ length (events s id)))
      × (((append s id n es).0 ≡ failed conflict) ↔ (n ≢ length (events s id)))
      × ((append s id n es).0 ≡ failed conflict
          → (j : PersistenceId) → events (append s id n es).1 j ≡ events s j)
append_fenced s id n es = (
  ground (arith, append_reply s id n es),
  ground (arith, append_reply s id n es),
  λ e j. ground (arith, append_reply s id n es, events-append s id j n es, id_beq_iff id j),
)

-- Another ID's stream is never touched.
pub append_other :
    (s : InMemoryStore) (id j : PersistenceId) (n : SeqNo) (es : List EncodedEvent)
    → id ≢ j
    → events (append s id n es).1 j ≡ events s j
append_other s id j n es h = ground (arith, events-append s id j n es, id_beq_iff id j)

pub read-eq :
    (s : InMemoryStore) (id : PersistenceId) (from limit : ℕ)
    → IsGapless s
    → read s id from limit ≡ done (take limit (drop from (numbered 0 (stream s id))))
unfolding read
read-eq s id from limit v = ap done (
    page-eq-take-drop from limit (events s id) (rw length-events (v.fits id))
    ∙ ap (λ xs. take limit (drop from xs)) (v.gapless id))

stream-append_self :
    (s : InMemoryStore) (id : PersistenceId) (n : SeqNo) (es : List EncodedEvent)
    → IsGapless s
    → length (stream s id) + length es ≤ u64_max
    → stream (append s id n es).1 id
      ≡ (if nat_eq (length (stream s id)) n then stream s id ++ es else stream s id)
stream-append_self s id n es v room =
    ground (arith, stream-append s id id n es v room, id_beq_iff id id)

pub append_ok :
    (s : InMemoryStore) (id : PersistenceId) (n : SeqNo) (es : List EncodedEvent)
    → IsGapless s
    → length (stream s id) + length es ≤ u64_max
    → (append s id n es).0 ≡ done tt
    → (n ≡ length (stream s id)) × (stream (append s id n es).1 id ≡ stream s id ++ es)
append_ok s id n es v room e =
    let h : n ≡ length (stream s id) = (append_fenced s id n es).0.0 e ∙ length-events s id in
    (h, ground (arith, stream-append_self s id n es v room))

pub append_atomic :
    (s : InMemoryStore) (id : PersistenceId) (n : SeqNo) (es : List EncodedEvent)
    → IsGapless s
    → length (stream s id) + length es ≤ u64_max
    → (stream (append s id n es).1 id ≡ stream s id)
      ⊎ (stream (append s id n es).1 id ≡ stream s id ++ es)
append_atomic s id n es v room = elim (Bool-cases (nat_eq (length (stream s id)) n)) [
  | inl e ↦ inr (ground (arith, e, stream-append_self s id n es v room))
  | inr e ↦ inl (ground (arith, e, stream-append_self s id n es v room))
]

pub read_ok :
    (s : InMemoryStore) (id : PersistenceId) (from limit : ℕ) (page : List StoredEvent)
    → IsGapless s
    → limit ≤ i64_max
    → read s id from limit ≡ done page
    → page ≡ take limit (drop from (numbered 0 (stream s id)))
read_ok s id from limit page v small e = cc (read-eq s id from limit v)

-- The in-memory store is an `EventStore`, as long as no stream outgrows a `u64`.
abbrev pub in_memory-IsEventStore : IsEventStore in_memory_events
in_memory-IsEventStore = record {
  Valid = IsGapless;
  stream = stream;
  append_ok = append_ok;
  append_conflict = λ w id n es v e. ap (map (λ x. x.event)) ((append_fenced w id n es).2 e id);
  append_atomic = append_atomic;
  append_other = λ w id j n es v h. ap (map (λ x. x.event)) (append_other w id j n es h);
  append_Valid = append-IsGapless;
  read_ok = read_ok;
}

-- The empty store is gapless.
pub empty-IsGapless : IsGapless empty_store
unfolding events lookup
empty-IsGapless = record { gapless = λ id. refl; fits = λ id. omega arith }
