-- ===== src/Postgres/Rows.antt =====
-- tellus-persistence-postgres/src/lib.rs: the rows of a stream that is numbered with no gap, and what
-- the statements make of them.
use tellus.Prelude.{
  ℕ, zero, suc, ◌+◌, ◌≤◌, ◌<◌, ◌≡◌, ◌≢◌, refl, ap, sym, ◌∙◌, ◌⊎◌, inl, inr, true, false, Bool-cases,
  append_nil, some, List, [], ◌∷◌, ◌++◌, length, length-append, take, drop, arith, nat_eq, ok, err,
  Result-cases,
}
use mathlib.Core.List.{append_assoc}
use tellus.Prelude.Int.{pos, i64_max}
use tellus.Persistence.Id.{PersistenceId, id_key, id_beq_iff}
use tellus.Persistence.Store.{EncodedEvent, StoredEvent}
use tellus.Persistence.Store.Numbered.{numbered}
use tellus.Postgres.{event_row, collect_events, number_rows}
use tellus.Postgres.Schema.{
  EventRow, rows_of, max_seq_no, select_next, has_event_key, insert_rows, rows_from,
  order_by_seq_no, select_events, coalesce_succ, bigint_succ, out_of_range,
}

-- The rows of events, numbered from a position.
abbrev pub event_rows : PersistenceId → ℕ → List EncodedEvent → List EventRow
event_rows id n [] = []
event_rows id n (e ∷ es) = event_row id (pos n) e ∷ event_rows id (suc n) es

pub rows_of-append :
    (id : PersistenceId) (xs ys : List EventRow)
    → rows_of id (xs ++ ys) ≡ rows_of id xs ++ rows_of id ys
unfolding rows_of
rows_of-append id [] ys = refl
rows_of-append id (x ∷ xs) ys = ground (arith, rows_of-append id xs ys)

pub rows_of-event_rows :
    (id : PersistenceId) (n : ℕ) (es : List EncodedEvent)
    → rows_of id (event_rows id n es) ≡ event_rows id n es
unfolding rows_of
rows_of-event_rows id n [] = refl
rows_of-event_rows id n (e ∷ es) =
    ground (arith, id_beq_iff id id, rows_of-event_rows id (suc n) es)

pub rows_of_other :
    (id j : PersistenceId) (n : ℕ) (es : List EncodedEvent)
    → id ≢ j
    → rows_of j (event_rows id n es) ≡ []
unfolding rows_of
rows_of_other id j n [] h = refl
rows_of_other id j n (e ∷ es) h = ground (arith, id_beq_iff id j, rows_of_other id j (suc n) es h)

max-event_rows :
    (id : PersistenceId) (n : ℕ) (e : EncodedEvent) (es : List EncodedEvent)
    → max_seq_no (event_rows id n (e ∷ es)) ≡ some (pos (n + length es))
unfolding max_seq_no
max-event_rows id n e [] = ground arith
max-event_rows id n e (f ∷ es) = ground (arith, max-event_rows id (suc n) f es)

-- The next number of a stream with no gap is its length; the one behind the last that a `BIGINT`
-- holds is out of range.
pub select_next-event_rows :
    (id : PersistenceId) (rows : List EventRow) (es : List EncodedEvent)
    → rows_of id rows ≡ event_rows id 0 es
    → (select_next id rows ≡ ok (pos (length es)))
      ⊎ ((select_next id rows ≡ err out_of_range) × (i64_max < length es))
unfolding select_next coalesce_succ bigint_succ
select_next-event_rows id rows [] h = inl (rw (h, max_seq_no) refl)
select_next-event_rows id rows (e ∷ es) h =
    let top : max_seq_no (rows_of id rows) ≡ some (pos (0 + length es)) =
      ap max_seq_no h ∙ max-event_rows id 0 e es in
    elim (Bool-cases (nat_eq (length es) i64_max)) [
      | inl last ↦ inr (rw top (ground (arith, last)), ground (arith, last))
      | inr inside ↦ inl (rw top (ground (arith, inside)))
    ]

pub insert_rows-eq-append :
    (rows table : List EventRow) {grown : List EventRow}
    → insert_rows rows table ≡ ok grown
    → grown ≡ table ++ rows
unfolding insert_rows
insert_rows-eq-append [] table h = ground (arith, append_nil table)
insert_rows-eq-append (r ∷ rs) table h = elim (Bool-cases (has_event_key r table)) [
  | inl taken ↦ ground (arith, taken)
  | inr free ↦
      insert_rows-eq-append rs (table ++ r ∷ []) (ground (arith, free))
      ∙ append_assoc table (r ∷ []) rs
]

-- A page in order stays as it is.
order-event_rows :
    (id : PersistenceId) (n : ℕ) (es : List EncodedEvent)
    → order_by_seq_no (event_rows id n es) ≡ event_rows id n es
unfolding order_by_seq_no
order-event_rows id n [] = refl
order-event_rows id n (e ∷ []) = refl
order-event_rows id n (e ∷ f ∷ es) = ground (arith, order-event_rows id (suc n) (f ∷ es))

rows_from-below :
    (id : PersistenceId) (from n : ℕ) (es : List EncodedEvent)
    → from ≤ n
    → rows_from (pos from) (event_rows id n es) ≡ event_rows id n es
unfolding rows_from
rows_from-below id from n [] h = refl
rows_from-below id from n (e ∷ es) h = ground (arith, rows_from-below id from (suc n) es)

rows_from-event_rows :
    (id : PersistenceId) (k n : ℕ) (es : List EncodedEvent)
    → rows_from (pos (n + k)) (event_rows id n es) ≡ event_rows id (n + k) (drop k es)
unfolding rows_from
rows_from-event_rows id zero n es =
    rows_from-below id (n + 0) n es (omega arith) ∙ ap (λ m. event_rows id m es) (omega arith)
rows_from-event_rows id (suc k) n [] = refl
rows_from-event_rows id (suc k) n (e ∷ es) =
    let next : suc n + k ≡ n + suc k = omega arith in
    ground (arith, next, rows_from-event_rows id k (suc n) es)

take-event_rows :
    (id : PersistenceId) (k n : ℕ) (es : List EncodedEvent)
    → take k (event_rows id n es) ≡ event_rows id n (take k es)
take-event_rows id zero n es = refl
take-event_rows id (suc k) n [] = refl
take-event_rows id (suc k) n (e ∷ es) =
    ap (◌∷◌ (event_row id (pos n) e)) (take-event_rows id k (suc n) es)

-- What is read of a stream with no gap.
pub select_events-event_rows :
    (id : PersistenceId) (from limit : ℕ) (rows : List EventRow) (es : List EncodedEvent)
    → rows_of id rows ≡ event_rows id 0 es
    → select_events id (pos from) limit rows ≡ event_rows id from (take limit (drop from es))
unfolding select_events
select_events-event_rows id from limit rows es h =
    ap (λ rs. take limit (order_by_seq_no (rows_from (pos from) rs))) h
    ∙ ap (λ m. take limit (order_by_seq_no (rows_from (pos m) (event_rows id 0 es)))) (omega arith)
    ∙ ap (λ rs. take limit (order_by_seq_no rs)) (rows_from-event_rows id from 0 es)
    ∙ ap (take limit) (order-event_rows id (0 + from) (drop from es))
    ∙ take-event_rows id limit (0 + from) (drop from es)
    ∙ ap (λ m. event_rows id m (take limit (drop from es))) (omega arith)

pub collect-event_rows :
    (id : PersistenceId) (n : ℕ) (es : List EncodedEvent) {page : List StoredEvent}
    → collect_events (event_rows id n es) ≡ ok page
    → page ≡ numbered n es
unfolding collect_events
collect-event_rows id n [] h = ground arith
collect-event_rows id n (e ∷ es) h =
    elim (Result-cases (collect_events (event_rows id (suc n) es))) [
      | inl (rest, e') ↦ ground (arith, e', collect-event_rows id (suc n) es e')
      | inr (error, e') ↦ ground (arith, e')
    ]

pub number_rows-eq :
    (id : PersistenceId) (n k : ℕ) (es : List EncodedEvent) {rows : List EventRow}
    → number_rows id (pos n) k es ≡ ok rows
    → rows ≡ event_rows id (n + k) es
unfolding number_rows
number_rows-eq id n k [] h = ground arith
number_rows-eq id n k (e ∷ es) h =
    let next : suc (n + k) ≡ n + suc k = omega arith in
    elim (Result-cases (number_rows id (pos n) (suc k) es)) [
      | inl (rest, e') ↦ ground (arith, e', next, number_rows-eq id n (suc k) es e')
      | inr (error, e') ↦ ground (arith, e')
    ]

-- Numbers up to the largest that a `BIGINT` holds can be given.
pub number_rows_fit :
    (id : PersistenceId) (n k : ℕ) (es : List EncodedEvent)
    → n + k + length es ≤ suc i64_max
    → number_rows id (pos n) k es ≡ ok (event_rows id (n + k) es)
unfolding number_rows
number_rows_fit id n k [] h = refl
number_rows_fit id n k (e ∷ es) h = ground (arith, number_rows_fit id n (suc k) es)

pub key-rows_of :
    (r : EventRow) (rows : List EventRow)
    → has_event_key r rows ≡ has_event_key r (rows_of r.id rows)
unfolding has_event_key rows_of
key-rows_of r [] = refl
key-rows_of r (s ∷ rows) = ground (arith, key-rows_of r rows)

key_free :
    (id : PersistenceId) (m n : ℕ) (e : EncodedEvent) (es : List EncodedEvent)
    → n + length es ≤ m
    → has_event_key (event_row id (pos m) e) (event_rows id n es) ≡ false
unfolding has_event_key
key_free id m n e [] h = refl
key_free id m n e (f ∷ es) h = ground (arith, key_free id m (suc n) e es)

pub key_taken :
    (id : PersistenceId) (m n : ℕ) (e : EncodedEvent) (es : List EncodedEvent)
    → n ≤ m
    → m < n + length es
    → has_event_key (event_row id (pos m) e) (event_rows id n es) ≡ true
unfolding has_event_key
key_taken id m n e [] h below = absurd (omega arith)
key_taken id m n e (f ∷ es) h below = ground (arith, id_beq_iff id id, key_taken id m (suc n) e es)

pub event_rows-append :
    (id : PersistenceId) (n : ℕ) (xs ys : List EncodedEvent)
    → event_rows id n (xs ++ ys) ≡ event_rows id n xs ++ event_rows id (n + length xs) ys
event_rows-append id n [] ys = ap (λ m. event_rows id m ys) (omega arith)
event_rows-append id n (x ∷ xs) ys = ap (◌∷◌ (event_row id (pos n) x)) (
    event_rows-append id (suc n) xs ys
    ∙ ap (λ m. event_rows id (suc n) xs ++ event_rows id m ys) (omega arith))

-- A stream with no gap that rows are added to, numbered on from its end.
pub rows_of-grown :
    (id : PersistenceId) (m : ℕ) (table : List EventRow) (xs es : List EncodedEvent)
    → rows_of id table ≡ event_rows id 0 xs
    → m ≡ length xs
    → rows_of id (table ++ event_rows id m es) ≡ event_rows id 0 (xs ++ es)
rows_of-grown id m table xs es h e =
    rows_of-append id table (event_rows id m es)
    ∙ ap (λ rs. rs ++ rows_of id (event_rows id m es)) h
    ∙ ap (λ rs. event_rows id 0 xs ++ rs) (rows_of-event_rows id m es)
    ∙ ap (λ k. event_rows id 0 xs ++ event_rows id k es) (omega (arith, e))
    ∙ sym (event_rows-append id 0 xs es)

-- Rows numbered on from the end of a stream have keys of their own.
pub insert_rows-event_rows :
    (id : PersistenceId) (m : ℕ) (table : List EventRow) (xs es : List EncodedEvent)
    → rows_of id table ≡ event_rows id 0 xs
    → m ≡ length xs
    → insert_rows (event_rows id m es) table ≡ ok (table ++ event_rows id m es)
unfolding insert_rows
insert_rows-event_rows id m table xs [] h at_end = ground (arith, append_nil table)
insert_rows-event_rows id m table xs (e ∷ es) h at_end =
    let row = event_row id (pos m) e in
    let free : has_event_key row table ≡ false =
      key-rows_of row table ∙ ap (has_event_key row) h ∙ key_free id m 0 e xs (omega arith) in
    let rest =
      insert_rows-event_rows id (suc m) (table ++ row ∷ []) (xs ++ e ∷ []) es
        (rows_of-grown id m table xs (e ∷ []) h at_end)
        (omega (arith, length-append xs (e ∷ []))) in
    rw free (rest ∙ ap ok (append_assoc table (row ∷ []) (event_rows id (suc m) es)))
