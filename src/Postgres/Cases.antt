-- ===== src/Postgres/Cases.antt =====
-- tellus-persistence-postgres/src/lib.rs: what an append leaves behind, whatever befalls it.
use tellus.Prelude.{
  ℕ, ◌≡◌, ◌≢◌, refl, ap, ◌∙◌, ◌⊎◌, inl, inr, Bool-cases, Result-cases, List, [], ◌∷◌, ◌++◌, length,
  length_pos, arith, Result, ok, err, Attempt, done, failed,
}
use tellus.Prelude.Int.{ℤ, pos, int_eq, int_eq_iff}
use tellus.Persistence.SeqNo.{SeqNo}
use tellus.Persistence.Id.{PersistenceId, Text}
use tellus.Persistence.Store.{AppendError, EncodedEvent, conflict}
use tellus.Postgres.{
  SqlxError, database, Fate, Statement, executed, refused, unreached, unanswered, append_seeing,
  append_rows, append_at, fenced, appended, execute, query, into_bigint, number_rows,
  is_unique_violation, Error, seq_no_out_of_range,
}
use tellus.Postgres.Schema.{EventRow, Tables, select_next, insert_events, insert_rows}
use tellus.Postgres.Rows.{event_rows, insert_rows-eq-append, number_rows-eq}

-- The rows that are inserted, or the table as it was.
insert_events-cases :
    (id : PersistenceId) (rows : List EventRow) (n : ℤ) (seen table : List EventRow)
    → ((insert_events id rows n seen table ≡ ok (length rows, table ++ rows))
        × (select_next id seen ≡ ok n)
        × (insert_rows rows table ≡ ok (table ++ rows)))
      ⊎ ((insert_events id rows n seen table ≡ ok (0, table)) × (select_next id seen ≢ ok n))
      ⊎ ((code : Text) × (insert_events id rows n seen table ≡ err code))
unfolding insert_events
insert_events-cases id rows n seen table = elim (Result-cases (select_next id seen)) [
  | inr (code, e) ↦ inr (inr (code, rw e refl))
  | inl (next, e) ↦ elim (Bool-cases (int_eq next n)) [
    | inr other ↦ inr (inl (rw e (rw other refl), ground (arith, e, other, int_eq_iff next n)))
    | inl same ↦ elim (Result-cases (insert_rows rows table)) [
      | inr (code, f) ↦ inr (inr (code, rw e (rw same (rw f refl))))
      | inl (grown, f) ↦
          let added = insert_rows-eq-append rows table f in
          inl (
            rw e (rw same (rw f (ap (λ x. ok (length rows, x)) added))),
            ground (arith, e, same, int_eq_iff next n),
            f ∙ ap ok added,
          )
    ]
  ]
]

appended-err : (count : ℕ) (e : SqlxError) → appended count (err e) ≢ done tt
unfolding appended
appended-err count e = ground arith

fenced-eq-done :
    (n : ℤ) (f : Fate) (next : Result ℤ Text) → fenced n (query f next) ≡ done tt → next ≡ ok n
unfolding fenced query
fenced-eq-done n f (ok next) h = ground (arith, int_eq_iff next n)
fenced-eq-done n f (err code) h = ground arith

module _ (fate : Statement → Fate) (seen t : Tables) (id : PersistenceId) (n : SeqNo) where
  -- The events have been added, behind the table, and it was their place.
  pub record Added (rows : List EventRow) (after : Attempt (Unit {0}) (AppendError Error) × Tables)
      : Type 0 where
    pub table : after.1 ≡ record t { events = t.events ++ rows }
    pub seen_next : select_next id seen.events ≡ ok (pos n)
    pub free : insert_rows rows t.events ≡ ok (t.events ++ rows)
    pub reply : after.0 ≢ failed conflict

  -- Nothing has been added, and only an append of nothing may have been accepted.
  pub record Unchanged (es : List EncodedEvent)
      (after : Attempt (Unit {0}) (AppendError Error) × Tables) : Type 0 where
    pub table : after.1 ≡ t
    pub accepted : after.0 ≡ done tt → (es ≡ []) × (select_next id seen.events ≡ ok (pos n))

  -- `append_rows` by the fate of its statement.
  ran : Fate → List EventRow → Attempt (Unit {0}) (AppendError Error) × Tables
  unfolding appended execute
  ran f rows =
      let (inserted, events) =
        execute f (insert_events id rows (pos n) seen.events t.events) t.events in
      (appended (length rows) inserted, record t { events = events })

  ran-refused :
      (code : Text) (rows : List EventRow)
      → ((ran (refused code) rows).1 ≡ t) × ((ran (refused code) rows).0 ≢ done tt)
  unfolding ran is_unique_violation
  ran-refused code rows = (refl, appended-err (length rows) (database code))

  ran-executed :
      (rows : List EventRow)
      → rows ≢ []
      → Added rows (ran executed rows)
        ⊎ ((ran executed rows).1 ≡ t) × ((ran executed rows).0 ≢ done tt)
  unfolding ran
  ran-executed rows some_row = elim (insert_events-cases id rows (pos n) seen.events t.events) [
    | inl (e, s, i) ↦
        inl (record { table = rw e refl; seen_next = s; free = i; reply = rw e (ground arith) })
    | inr (inl (e, s)) ↦ inr (rw e refl, rw e (ground (arith, length_pos rows some_row)))
    | inr (inr (code, e)) ↦ inr (rw e refl, rw e (appended-err (length rows) (database code)))
  ]

  ran-unanswered :
      (rows : List EventRow)
      → Added rows (ran unanswered rows)
        ⊎ ((ran unanswered rows).1 ≡ t) × ((ran unanswered rows).0 ≢ done tt)
  unfolding ran is_unique_violation
  ran-unanswered rows = elim (insert_events-cases id rows (pos n) seen.events t.events) [
    | inl (e, s, i) ↦
        inl (record { table = rw e refl; seen_next = s; free = i; reply = rw e (λ h. cc) })
    | inr (inl (e, s)) ↦ inr (rw e refl, rw e (λ h. cc))
    | inr (inr (code, e)) ↦ inr (rw e refl, rw e (λ h. cc))
  ]

  ran-cases :
      (f : Fate) (rows : List EventRow)
      → rows ≢ []
      → Added rows (ran f rows) ⊎ ((ran f rows).1 ≡ t) × ((ran f rows).0 ≢ done tt)
  ran-cases executed rows h = ran-executed rows h
  ran-cases (refused code) rows h = inr (ran-refused code rows)
  ran-cases unreached rows h = inr (unfold ran is_unique_violation in (refl, λ h. cc))
  ran-cases unanswered rows h = ran-unanswered rows

  append_rows-cases :
      (e : EncodedEvent) (es : List EncodedEvent) (rows : Result (List EventRow) Error)
      → number_rows id (pos n) 0 (e ∷ es) ≡ rows
      → Added (event_rows id n (e ∷ es)) (append_rows fate id (pos n) rows seen t)
        ⊎ Unchanged (e ∷ es) (append_rows fate id (pos n) rows seen t)
  unfolding append_rows ran
  append_rows-cases e es (err error) h = inr (record { table = refl; accepted = λ h. cc })
  append_rows-cases e es (ok rows) h =
      let placed : rows ≡ event_rows id n (e ∷ es) =
        number_rows-eq id n 0 (e ∷ es) h ∙ ap (λ m. event_rows id m (e ∷ es)) (omega arith) in
      rw placed (elim (ran-cases _ (event_rows id n (e ∷ es)) (λ h. cc)) [
        | inl added ↦ inl added
        | inr (same, not_done) ↦ inr (record { table = same; accepted = λ h. absurd (not_done h) })
      ])

  append_at-cases :
      (es : List EncodedEvent) (next : Result ℤ Error)
      → (next ≡ ok (pos n)) ⊎ (next ≡ err seq_no_out_of_range)
      → Added (event_rows id n es) (append_at fate id es next seen t)
        ⊎ Unchanged es (append_at fate id es next seen t)
  unfolding append_at
  append_at-cases es next (inr e) = rw e (inr (record { table = refl; accepted = λ h. cc }))
  append_at-cases [] next (inl e) = rw e (
      inr (record {
        table = refl;
        accepted = λ h. (refl, fenced-eq-done (pos n) _ (select_next id seen.events) h);
      }))
  append_at-cases (e ∷ es) next (inl h) = rw h (append_rows-cases e es _ refl)

  -- What every append comes down to.
  pub append_seeing-cases :
      (es : List EncodedEvent)
      → Added (event_rows id n es) (append_seeing fate seen t id n es)
        ⊎ Unchanged es (append_seeing fate seen t id n es)
  unfolding append_seeing into_bigint
  append_seeing-cases es = append_at-cases es (into_bigint n) (ground arith)
