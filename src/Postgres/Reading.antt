-- ===== src/Postgres/Reading.antt =====
-- tellus-persistence-postgres/src/lib.rs: what is read back of what was appended, and what that gives
-- an actor that recovers.
use tellus.Prelude.{
  ℕ, zero, suc, ◌+◌, ◌≤◌, ◌<◌, ◌≡◌, refl, ap, sym, ◌∙◌, List, [], ◌∷◌, ◌++◌, length, length-append,
  length-take, length-drop, take, drop, min, arith, u64_max, Option, some, ok, done, returned,
}
use tellus.Prelude.Int.{pos, i64_max, u16_max}
use tellus.Persistence.SeqNo.{SeqNo}
use tellus.Persistence.Id.{PersistenceId}
use tellus.Persistence.Store.{EncodedEvent, StoredSnapshot}
use tellus.Persistence.Store.Numbered.{numbered, numbered_at, drop-numbered, take-numbered}
use tellus.Persistence.Store.Contract.{VersionsFit}
use tellus.Persistence.Versioned.{Codec}
use tellus.Persistence.EventSourced.{EventSourced, Persistence}
use tellus.Persistence.Recovery.{page_limit, recover}
use tellus.Persistence.Recovery.Loop.{page_limit_small}
use tellus.Persistence.Settle.Apply.{EventsRoundTrip}
use tellus.Persistence.Settle.Live.{SnapshotsRestore, IsLive}
use tellus.Persistence.Settle.Durable.{Runs, Runs-IsLive, recover-Runs}
use tellus.Postgres.{
  Fate, Statement, executed, read_events, append, read, load, stored_event, collect_events, query,
  event_row, postgres_events, postgres_snapshots,
}
use tellus.Postgres.Schema.{Tables}
use tellus.Postgres.Rows.{event_rows, select_events-event_rows}
use tellus.Postgres.Contract.{stream, IsGapless, append_ok, append-IsGapless, postgres-IsEventStore}
use tellus.Postgres.Race.{append_accepted, into_bigint_fits}
use tellus.Postgres.Together.{postgres-AreStores}

VersionsFit-drop : (n : ℕ) (es : List EncodedEvent) → VersionsFit es → VersionsFit (drop n es)
VersionsFit-drop zero es h = h
VersionsFit-drop (suc n) [] h = tt
VersionsFit-drop (suc n) (e ∷ es) (_, h) = VersionsFit-drop n es h

VersionsFit-take : (n : ℕ) (es : List EncodedEvent) → VersionsFit es → VersionsFit (take n es)
VersionsFit-take zero es h = tt
VersionsFit-take (suc n) [] h = tt
VersionsFit-take (suc n) (e ∷ es) (v, h) = (v, VersionsFit-take n es h)

stored_event-event_row :
    (id : PersistenceId) (n : ℕ) (e : EncodedEvent)
    → e.schema_version ≤ u16_max
    → n ≤ u64_max
    → stored_event (event_row id (pos n) e) ≡ ok (record { seq_no = n; event = e })
unfolding stored_event
stored_event-event_row id n e v fits = ground arith

collect_fit :
    (id : PersistenceId) (n : ℕ) (es : List EncodedEvent)
    → VersionsFit es
    → n + length es ≤ u64_max
    → collect_events (event_rows id n es) ≡ ok (numbered n es)
unfolding collect_events
collect_fit id n [] v fits = refl
collect_fit id n (e ∷ es) (v, vs) fits =
    rw (stored_event-event_row id n e v (omega arith))
      (rw (collect_fit id (suc n) es vs (omega arith)) refl)

module _ (fate : Statement → Fate) (id : PersistenceId) (limit : ℕ) (small : limit ≤ i64_max)
    (reads : (n : ℕ) → fate (read_events id (pos n) limit) ≡ executed) where
  -- A page that starts within the stream is read.
  pub read_page :
      (t : Tables) (from : ℕ)
      → IsGapless t
      → VersionsFit (stream t id)
      → length (stream t id) ≤ i64_max
      → from ≤ length (stream t id)
      → read fate t id from limit ≡ done (take limit (drop from (numbered 0 (stream t id))))
  unfolding read query
  read_page t from v versions fits le =
      let es = take limit (drop from (stream t id)) in
      let limit' : min limit i64_max ≡ limit = omega arith in
      let collected =
        collect_fit id from es
          (VersionsFit-take limit _ (VersionsFit-drop from (stream t id) versions))
          (omega
            (arith, length-take limit (drop from (stream t id)), length-drop from (stream t id))) in
      rw (into_bigint_fits from (omega arith)) (
        rw limit' (
          rw (reads from) (
            rw (select_events-event_rows id from limit t.events (stream t id) (v.gapless id)) (
              rw collected (
                ap done (
                  sym (
                    ap (take limit) (drop-numbered from 0 (stream t id))
                    ∙ take-numbered limit (0 + from) (drop from (stream t id))
                    ∙ numbered_at {m = 0 + from} {n = from} es (omega arith))))))))

VersionsFit-append :
    (xs ys : List EncodedEvent) → VersionsFit xs → VersionsFit ys → VersionsFit (xs ++ ys)
VersionsFit-append [] ys h k = k
VersionsFit-append (x ∷ xs) ys (v, h) k = (v, VersionsFit-append xs ys h k)

-- Where the database executes what it is sent, events that are appended at the end of a stream are
-- accepted and read back, in order and numbered on from the events before them, in pages that start
-- anywhere in the stream. It is asked that versions fit a `u16`, and limits and positions an `i64`.
pub read-append_executed :
    (fate : Statement → Fate) (t : Tables) (id : PersistenceId) (es : List EncodedEvent)
    (from limit : ℕ)
    → IsGapless t
    → ((s : Statement) → fate s ≡ executed)
    → VersionsFit (stream t id)
    → VersionsFit es
    → length (stream t id) + length es ≤ i64_max
    → limit ≤ i64_max
    → from ≤ length (stream t id) + length es
    → let (reply, after) = append fate t id (length (stream t id)) es in
      (reply ≡ done tt)
      × (read fate after id from limit
          ≡ done (take limit (drop from (numbered 0 (stream t id ++ es)))))
read-append_executed fate t id es from limit v run old new room small le =
    let n = length (stream t id) in
    let accepted = append_accepted fate t id es v room run in
    let grown = (append_ok fate t id n es v accepted).1 in
    let size = ap length grown ∙ length-append (stream t id) es in
    (
      accepted,
      read_page fate id limit small (λ k. run (read_events id (pos k) limit))
            (append fate t id n es).1 from (append-IsGapless fate t id n es v)
            (rw grown (VersionsFit-append (stream t id) es old new)) (omega (arith, size))
            (omega (arith, size))
          ∙ ap (λ xs. done (take limit (drop from (numbered 0 xs)))) grown,
    )

module _ (fate : Statement → Fate) (A : EventSourced) (events : Codec A.Event)
    (snapshots : Codec A.Snapshot) where
  -- An actor's persistence over the one store.
  abbrev pub over_postgres : Persistence Tables A
  over_postgres = record {
    event_store = postgres_events fate;
    snapshot_store = postgres_snapshots fate;
    event_codec = events;
    snapshot_codec = snapshots;
  }

  -- An actor over PostgreSQL that starts live, and settles effects while the actors of other IDs
  -- append and save, is recovered as exactly the state that it has, whatever befell the statements
  -- that write. It is asked that the reads of the recovery are executed, that the stream's length
  -- fits an `i64` and its versions a `u16`, that a snapshot, if there is one, loads, that events and
  -- snapshots decode to what was encoded and that the snapshot of a state initialises it.
  pub recover-over_postgres :
      (id : PersistenceId) {t t' : Tables} {s s' : A.State} {n n' : SeqNo} (fuel : ℕ)
      (stored : Option StoredSnapshot)
      → EventsRoundTrip A over_postgres
      → SnapshotsRestore A over_postgres
      → IsLive A over_postgres (postgres-IsEventStore fate) t id s n
      → Runs A over_postgres (postgres-IsEventStore fate) id t s n t' s' n'
      → ((k : ℕ) → fate (read_events id (pos k) page_limit) ≡ executed)
      → VersionsFit (stream t' id)
      → length (stream t' id) ≤ i64_max
      → A.persistence_id ≡ returned id
      → load fate t' id ≡ done stored
      → length (stream t' id) < fuel
      → recover A over_postgres fuel t'
        ≡ some (some (record { id = id; state = s'; next_seq_no = n' }))
  recover-over_postgres id {t' = t'} fuel stored round_trip restore live run reads versions fits
        named loaded enough =
      let L = postgres-IsEventStore fate in
      let v =
        (Runs-IsLive A over_postgres L (postgres-AreStores fate) round_trip restore id run
          live).valid in
      recover-Runs A over_postgres L (postgres-AreStores fate) round_trip restore id fuel stored
        live run
        (record {
          valid = v;
          fits = omega arith;
          reads = λ k le.
              (_, read_page fate id page_limit page_limit_small reads t' k v versions fits le);
        })
        named loaded enough
