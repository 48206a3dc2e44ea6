-- ===== src/Postgres/Contract.antt =====
-- tellus-persistence-postgres/src/lib.rs: the PostgreSQL store keeps the contract of an `EventStore`,
-- whatever befalls its statements.
use tellus.Prelude.{
  ℕ, ◌≤◌, ◌≡◌, ◌≢◌, refl, ap, sym, ◌∙◌, ◌⊎◌, inl, inr, Bool-cases, ok_of_bind, List, [], ◌∷◌, ◌++◌,
  append_nil, map, length, take, drop, min, arith, Result, ok, err, done, failed,
}
use tellus.Prelude.Int.{ℤ, pos, negsuc, i64_max}
use tellus.Prelude.Dict.{◌==◌}
use tellus.Persistence.SeqNo.{SeqNo}
use tellus.Persistence.Id.{PersistenceId, id_key, id_beq_iff}
use tellus.Persistence.Store.{EncodedEvent, StoredEvent, conflict}
use tellus.Persistence.Store.Numbered.{numbered, drop-numbered, take-numbered}
use tellus.Persistence.Store.Contract.{IsEventStore}
use tellus.Postgres.{
  Error, map_sqlx, to_attempt, read_events, Fate, Statement, executed, refused, unreached,
  unanswered, append, read, postgres_events, into_bigint, query, collect_events,
}
use tellus.Postgres.Schema.{EventRow, Tables, rows_of, select_next, select_events}
use tellus.Postgres.Cases.{Added, Unchanged, append_seeing-cases}
use tellus.Postgres.Rows.{
  event_rows, select_next-event_rows, select_events-event_rows, collect-event_rows, rows_of-grown,
  rows_of-append, rows_of_other,
}

version_of : ℤ → ℕ
version_of (pos v) = v
version_of (negsuc v) = 0

event_of : EventRow → EncodedEvent
unfolding version_of
event_of r = record {
  manifest = r.manifest;
  schema_version = version_of r.schema_version;
  payload = r.payload;
}

-- The events of an ID, as the table lists them.
unfoldable pub stream : Tables → PersistenceId → List EncodedEvent
unfolding event_of
stream t id = map event_of (rows_of id t.events)

-- The rows of each ID are numbered from 0 with no gap.
pub record IsGapless (t : Tables) : Type 0 where
  pub gapless : (id : PersistenceId) → rows_of id t.events ≡ event_rows id 0 (stream t id)

stream-event_rows :
    (id : PersistenceId) (n : ℕ) (es : List EncodedEvent) → map event_of (event_rows id n es) ≡ es
unfolding event_of
stream-event_rows id n [] = refl
stream-event_rows id n (e ∷ es) = ap (◌∷◌ e) (stream-event_rows id (ℕ.suc n) es)

pub numbered-at_end :
    (t : Tables) (id : PersistenceId) (n : SeqNo)
    → IsGapless t
    → select_next id t.events ≡ ok (pos n)
    → n ≡ length (stream t id)
numbered-at_end t id n v e =
    ground (arith, select_next-event_rows id t.events (stream t id) (v.gapless id))

-- Rows that are added behind the end of their stream.
stream-added :
    (t : Tables) (id : PersistenceId) (n : SeqNo) (es : List EncodedEvent)
    → IsGapless t
    → n ≡ length (stream t id)
    → stream (record t { events = t.events ++ event_rows id n es }) id ≡ stream t id ++ es
unfolding stream
stream-added t id n es v e =
    ap (map event_of) (rows_of-grown id n t.events (stream t id) es (v.gapless id) e)
    ∙ stream-event_rows id 0 (stream t id ++ es)

rows-added_other :
    (t : Tables) (id j : PersistenceId) (n : SeqNo) (es : List EncodedEvent)
    → id ≢ j
    → rows_of j (t.events ++ event_rows id n es) ≡ rows_of j t.events
rows-added_other t id j n es h =
    rows_of-append j t.events (event_rows id n es)
    ∙ ap (◌++◌ (rows_of j t.events)) (rows_of_other id j n es h)
    ∙ append_nil (rows_of j t.events)

stream-added_other :
    (t : Tables) (id j : PersistenceId) (n : SeqNo) (es : List EncodedEvent)
    → id ≢ j
    → stream (record t { events = t.events ++ event_rows id n es }) j ≡ stream t j
unfolding stream
stream-added_other t id j n es h = ap (map event_of) (rows-added_other t id j n es h)

gapless-added :
    (t : Tables) (id j : PersistenceId) (n : SeqNo) (es : List EncodedEvent)
    → IsGapless t
    → n ≡ length (stream t id)
    → (id ≡ j) ⊎ (id ≢ j)
    → rows_of j (t.events ++ event_rows id n es)
      ≡ event_rows j 0 (stream (record t { events = t.events ++ event_rows id n es }) j)
gapless-added t id j n es v e (inl same) = rw (sym same) (
    rows_of-grown id n t.events (stream t id) es (v.gapless id) e
    ∙ ap (event_rows id 0) (sym (stream-added t id n es v e)))
gapless-added t id j n es v e (inr other) =
    rows-added_other t id j n es other
    ∙ v.gapless j
    ∙ ap (event_rows j 0) (sym (stream-added_other t id j n es other))

id_cases : (id j : PersistenceId) → (id ≡ j) ⊎ (id ≢ j)
id_cases id j = elim (Bool-cases (id == j)) [
  | inl e ↦ inl ((id_beq_iff id j).0 e)
  | inr e ↦ inr (λ h. cc (e, (id_beq_iff id j).1 h))
]

module _ (fate : Statement → Fate) (t : Tables) (id : PersistenceId) (n : SeqNo)
    (es : List EncodedEvent) (v : IsGapless t) where
  append_split :
      Added fate t t id n (event_rows id n es) (append fate t id n es)
      ⊎ Unchanged fate t t id n es (append fate t id n es)
  unfolding append
  append_split = append_seeing-cases fate t t id n es

  pub append_ok :
      (append fate t id n es).0 ≡ done tt
      → (n ≡ length (stream t id)) × (stream (append fate t id n es).1 id ≡ stream t id ++ es)
  append_ok h = elim append_split [
    | inl a ↦
        let at_end = numbered-at_end t id n v a.seen_next in
        (at_end, rw a.table (stream-added t id n es v at_end))
    | inr u ↦
        let at_end = numbered-at_end t id n v (u.accepted h).1 in
        (at_end, rw (u.table, (u.accepted h).0) (sym (append_nil (stream t id))))
  ]

  pub append_conflict :
      (append fate t id n es).0 ≡ failed conflict
      → stream (append fate t id n es).1 id ≡ stream t id
  append_conflict h = elim append_split [ inl a ↦ absurd (a.reply h) | inr u ↦ rw u.table refl ]

  pub append_atomic :
      (stream (append fate t id n es).1 id ≡ stream t id)
      ⊎ (stream (append fate t id n es).1 id ≡ stream t id ++ es)
  append_atomic = elim append_split [
    | inl a ↦ inr (rw a.table (stream-added t id n es v (numbered-at_end t id n v a.seen_next)))
    | inr u ↦ inl (rw u.table refl)
  ]

  pub append_other : (j : PersistenceId) → id ≢ j → stream (append fate t id n es).1 j ≡ stream t j
  append_other j h = elim append_split [
    | inl a ↦ rw a.table (stream-added_other t id j n es h)
    | inr u ↦ rw u.table refl
  ]

  pub append-IsGapless : IsGapless (append fate t id n es).1
  append-IsGapless = elim append_split [
    | inl a ↦ rw a.table (record {
      gapless =
          λ j. gapless-added t id j n es v (numbered-at_end t id n v a.seen_next) (id_cases id j);
    })
    | inr u ↦ rw u.table v
  ]

-- Whatever befalls the statement of an append, the stream of its ID is as it was or holds the events
-- behind what was there, no other stream has changed and all are still numbered with no gap. If the
-- append is accepted, the number was the length of the stream and the events are there; if it is
-- refused by a conflict, they are not.
pub append_lem :
    (fate : Statement → Fate) (t : Tables) (id : PersistenceId) (n : SeqNo) (es : List EncodedEvent)
    → IsGapless t
    → let (reply, after) = append fate t id n es in
      ((stream after id ≡ stream t id) ⊎ (stream after id ≡ stream t id ++ es))
      × ((j : PersistenceId) → id ≢ j → stream after j ≡ stream t j)
      × IsGapless after
      × (reply ≡ done tt → (n ≡ length (stream t id)) × (stream after id ≡ stream t id ++ es))
      × (reply ≡ failed conflict → stream after id ≡ stream t id)
append_lem fate t id n es v = (
  append_atomic fate t id n es v,
  append_other fate t id n es v,
  append-IsGapless fate t id n es v,
  append_ok fate t id n es v,
  append_conflict fate t id n es v,
)

query-eq-ok : {A : Type 0} (f : Fate) (a : A) {b : A} → map_sqlx (query f (ok a)) ≡ ok b → b ≡ a
unfolding query
query-eq-ok executed a h = cc
query-eq-ok (refused code) a h = cc
query-eq-ok unreached a h = cc
query-eq-ok unanswered a h = cc

pub to_attempt-eq-done :
    {A : Type 0} (r : Result A Error) {a : A} → to_attempt r ≡ done a → r ≡ ok a
to_attempt-eq-done (ok a) h = cc
to_attempt-eq-done (err e) h = cc

into_bigint-eq-ok : (n : SeqNo) {m : ℤ} → into_bigint n ≡ ok m → m ≡ pos n
unfolding into_bigint
into_bigint-eq-ok n h = ground arith

read_rows :
    (id : PersistenceId) (from limit : ℕ) (es : List EncodedEvent) (rows : List EventRow)
    {page : List StoredEvent}
    → rows ≡ event_rows id from (take limit (drop from es))
    → collect_events rows ≡ ok page
    → page ≡ take limit (drop from (numbered 0 es))
read_rows id from limit es rows e h =
    collect-event_rows id from (take limit (drop from es)) (sym (ap collect_events e) ∙ h)
    ∙ sym (take-numbered limit from (drop from es))
    ∙ ap (take limit)
        (sym (drop-numbered from 0 es ∙ ap (λ m. numbered m (drop from es)) (omega arith)))

module _ (fate : Statement → Fate) where
  pub read_ok :
      (t : Tables) (id : PersistenceId) (from limit : ℕ) (page : List StoredEvent)
      → IsGapless t
      → limit ≤ i64_max
      → read fate t id from limit ≡ done page
      → page ≡ take limit (drop from (numbered 0 (stream t id)))
  unfolding read
  read_ok t id from limit page v room h =
      let limit' : min limit i64_max ≡ limit = omega arith in
      let (start, bound, rest) = ok_of_bind (into_bigint from) _ (to_attempt-eq-done _ h) in
      let start_at = into_bigint-eq-ok from bound in
      let (rows, answered, collected) = ok_of_bind _ collect_events rest in
      let selected = query-eq-ok (fate (read_events id start (min limit i64_max))) _ answered in
      read_rows id from limit (stream t id) rows
        (selected
          ∙ ap (λ m. select_events id m (min limit i64_max) t.events) start_at
          ∙ ap (λ k. select_events id (pos from) k t.events) limit'
          ∙ select_events-event_rows id from limit t.events (stream t id) (v.gapless id))
        collected

  -- The laws that the event store keeps.
  abbrev pub postgres-IsEventStore : IsEventStore (postgres_events fate)
  postgres-IsEventStore = record {
    Valid = IsGapless;
    stream = stream;
    append_ok = λ t id n es v room. append_ok fate t id n es v;
    append_conflict = λ t id n es v. append_conflict fate t id n es v;
    append_atomic = λ t id n es v room. append_atomic fate t id n es v;
    append_other = λ t id j n es v. append_other fate t id n es v j;
    append_Valid = λ t id n es v room. append-IsGapless fate t id n es v;
    read_ok = read_ok;
  }
