-- ===== src/Postgres/Race.antt =====
-- tellus-persistence-postgres/src/lib.rs: an append that another writer overlaps, and when one is
-- accepted.
use tellus.Prelude.{
  ◌+◌, ◌≤◌, ◌<◌, ◌≡◌, ◌≢◌, refl, ap, sym, ◌∙◌, inl, inr, List, [], ◌∷◌, ◌++◌, length, length-append,
  length_pos, arith, ok, err, done, Result, true,
}
use tellus.Prelude.Int.{pos, i64_max, int_eq, int_eq_iff}
use tellus.Persistence.SeqNo.{SeqNo}
use tellus.Persistence.Id.{PersistenceId}
use tellus.Persistence.Store.{EncodedEvent}
use tellus.Postgres.{
  Fate, Statement, executed, append, append_seeing, append_at, append_rows, event_row,
  next_of_stream, insert_into_events, into_bigint, number_rows,
}
use tellus.Postgres.Schema.{
  Tables, insert_events, insert_rows, has_event_key, select_next, unique_violation,
}
use tellus.Postgres.Rows.{
  event_rows, select_next-event_rows, insert_rows-event_rows, number_rows_fit, key-rows_of,
  key_taken,
}
use tellus.Postgres.Cases.{append_seeing-cases}
use tellus.Postgres.Contract.{stream, IsGapless, numbered-at_end}

ok-ne-err : {A E : Type 0} {a : A} {e : E} → ◌≢◌ {A = Result A E} (ok a) (err e)
ok-ne-err h = cc

-- A row of a stream that has grown past its place is there already.
taken :
    (t : Tables) (id : PersistenceId) (n : SeqNo) (e : EncodedEvent) (es : List EncodedEvent)
    → IsGapless t
    → n < length (stream t id)
    → insert_rows (event_rows id n (e ∷ es)) t.events ≡ err unique_violation
unfolding insert_rows
taken t id n e es v below =
    let row = event_row id (pos n) e in
    let there : has_event_key row t.events ≡ true =
      key-rows_of row t.events
      ∙ ap (has_event_key row) (v.gapless id)
      ∙ key_taken id n 0 e (stream t id) (omega arith) (omega arith) in
    rw there refl

-- A writer that is overtaken between its check and its rows adds nothing and is not told that it did,
-- whatever befalls its statement: it checked the table `seen`, and the stream has grown since.
pub overtaken :
    (fate : Statement → Fate) (seen t : Tables) (id : PersistenceId) (n : SeqNo)
    (grown es : List EncodedEvent)
    → IsGapless seen
    → IsGapless t
    → stream t id ≡ stream seen id ++ grown
    → grown ≢ []
    → es ≢ []
    → let (reply, after) = append_seeing fate seen t id n es in (after ≡ t) × (reply ≢ done tt)
overtaken fate seen t id n grown [] vs vt later some_grown some_event = absurd (some_event refl)
overtaken fate seen t id n grown (e ∷ es) vs vt later some_grown some_event =
    elim (append_seeing-cases fate seen t id n (e ∷ es)) [
      | inl a ↦
          let n_at = numbered-at_end seen id n vs a.seen_next in
          let below : n < length (stream t id) = omega (
            arith,
            n_at,
            ap length later,
            length-append (stream seen id) grown,
            length_pos grown some_grown,
          ) in
          absurd (ok-ne-err (sym a.free ∙ taken t id n e es vt below))
      | inr u ↦ (u.table, λ h. some_event (u.accepted h).0)
    ]

pub into_bigint_fits : (n : SeqNo) → n ≤ i64_max → into_bigint n ≡ ok (pos n)
unfolding into_bigint
into_bigint_fits n h = ground arith

pub next_at_end :
    (t : Tables) (id : PersistenceId)
    → IsGapless t
    → length (stream t id) ≤ i64_max
    → select_next id t.events ≡ ok (pos (length (stream t id)))
next_at_end t id v room = elim (select_next-event_rows id t.events (stream t id) (v.gapless id)) [
  | inl e ↦ e
  | inr (e, over) ↦ absurd (omega arith)
]

append_rows_accepted :
    (fate : Statement → Fate) (t : Tables) (id : PersistenceId) (n : SeqNo) (e : EncodedEvent)
    (es : List EncodedEvent)
    → ((s : Statement) → fate s ≡ executed)
    → select_next id t.events ≡ ok (pos n)
    → insert_rows (event_rows id n (e ∷ es)) t.events ≡ ok (t.events ++ event_rows id n (e ∷ es))
    → (append_rows fate id (pos n) (ok (event_rows id n (e ∷ es))) t t).0 ≡ done tt
unfolding append_rows insert_events
append_rows_accepted fate t id n e es run next room =
    let same : int_eq (pos n) (pos n) ≡ true = (int_eq_iff (pos n) (pos n)).1 refl in
    rw (run (insert_into_events id (event_rows id n (e ∷ es)) (pos n)))
      (rw next (rw same (rw room (ground arith))))

-- An append at the end of the stream that is executed and whose numbers a `BIGINT` holds is accepted.
pub append_accepted :
    (fate : Statement → Fate) (t : Tables) (id : PersistenceId) (es : List EncodedEvent)
    → IsGapless t
    → length (stream t id) + length es ≤ i64_max
    → ((s : Statement) → fate s ≡ executed)
    → (append fate t id (length (stream t id)) es).0 ≡ done tt
unfolding append append_at
append_accepted fate t id [] v room run =
    let n = length (stream t id) in
    rw (into_bigint_fits n (omega arith)) (
      rw (run (next_of_stream id))
        (rw (next_at_end t id v (omega arith)) (ground (arith, int_eq_iff (pos n) (pos n)))))
append_accepted fate t id (e ∷ es) v room run =
    let n = length (stream t id) in
    let numbers : number_rows id (pos n) 0 (e ∷ es) ≡ ok (event_rows id n (e ∷ es)) =
      number_rows_fit id n 0 (e ∷ es) (omega arith)
      ∙ ap (λ m. ok (event_rows id m (e ∷ es))) (omega arith) in
    rw (into_bigint_fits n (omega arith)) (
      rw numbers (
        append_rows_accepted fate t id n e es run (next_at_end t id v (omega arith))
          (insert_rows-event_rows id n t.events (stream t id) (e ∷ es) (v.gapless id) refl)))
