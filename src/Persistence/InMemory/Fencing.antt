-- ===== src/Persistence/InMemory/Fencing.antt =====
-- tellus/src/persistence/in_memory_store.rs: what is read after an append, and writers that race.
use tellus.Prelude.{
  ℕ, ◌+◌, ◌≤◌, ◌≡◌, ◌≢◌, refl, ap, ◌∙◌, sym, List, [], ◌∷◌, ◌++◌, map, length, length-append,
  length_pos, take, drop, arith, u64_max, Attempt, done, failed,
}
use tellus.Persistence.SeqNo.{SeqNo}
use tellus.Persistence.Id.{PersistenceId}
use tellus.Persistence.Store.{EncodedEvent, AppendError, conflict}
use tellus.Persistence.Store.Numbered.{numbered}
use tellus.Persistence.InMemory.{InMemoryStore, events, append, read}
use tellus.Persistence.InMemory.Contract.{
  IsGapless, stream, append_fenced, append_ok, append-IsGapless, append_other, read-eq,
  length-events,
}

-- What is appended at the end of a stream is read back, behind what was there, with its numbers, in
-- pages that start at any position and have any size; another ID's pages stay the same.
read-append :
    (s : InMemoryStore) (id : PersistenceId) (es : List EncodedEvent) (from limit : ℕ)
    → IsGapless s
    → length (stream s id) + length es ≤ u64_max
    → let s' = (append s id (length (stream s id)) es).1 in
      (read s' id from limit ≡ done (take limit (drop from (numbered 0 (stream s id ++ es)))))
      × ((j : PersistenceId) → id ≢ j → read s' j from limit ≡ read s j from limit)
read-append s id es from limit v room =
    let n = length (stream s id) in
    let v' = append-IsGapless s id n es v room in
    let accepted = (append_fenced s id n es).0.1 (sym (length-events s id)) in
    (
      read-eq _ id from limit v'
          ∙ ap (λ xs. done (take limit (drop from (numbered 0 xs))))
              (append_ok s id n es v room accepted).1,
      λ j h.
          read-eq _ j from limit v'
          ∙ ap (λ xs. done (take limit (drop from (numbered 0 (map (λ e. e.event) xs)))))
              (append_other s id j n es h)
          ∙ sym (read-eq s j from limit v),
    )

-- Writers that all expect the same next number, in the order in which they get the lock.
pub race :
    InMemoryStore
    → PersistenceId
    → SeqNo
    → List (List EncodedEvent)
    → List (Attempt (Unit {0}) (AppendError ⊥)) × InMemoryStore
race s id n [] = ([], s)
race s id n (es ∷ rest) =
    let (reply, s') = append s id n es in
    let (replies, t) = race s' id n rest in (reply ∷ replies, t)

race_stale :
    (s : InMemoryStore) (id : PersistenceId) (n : SeqNo) (writers : List (List EncodedEvent))
    → n ≢ length (events s id)
    → ((race s id n writers).0 ≡ map (λ _. failed conflict) writers)
      × (events (race s id n writers).1 id ≡ events s id)
unfolding race
race_stale s id n [] stale = (refl, refl)
race_stale s id n (es ∷ rest) stale =
    let refused = (append_fenced s id n es).1.1 stale in
    let same = (append_fenced s id n es).2 refused id in
    let ih = race_stale (append s id n es).1 id n rest (λ e. stale (e ∙ ap length same)) in
    (cc (refused, ih.0), ih.1 ∙ same)

outgrown :
    (s : InMemoryStore) (id : PersistenceId) (es : List EncodedEvent)
    → let n = length (stream s id) in
      stream (append s id n es).1 id ≡ stream s id ++ es
      → es ≢ []
      → n ≢ length (events (append s id n es).1 id)
outgrown s id es grown some_event e = omega (
  arith,
  length_pos es some_event,
  length-append (stream s id) es,
  ap length grown,
  length-events (append s id (length (stream s id)) es).1 id,
)

-- Of writers that race on the end of a stream the first wins, if it has an event to append; all the
-- others get a conflict, whatever they append, and the stream holds the winner's events alone.
pub race_first_wins :
    (s : InMemoryStore) (id : PersistenceId) (es : List EncodedEvent)
    (rest : List (List EncodedEvent))
    → IsGapless s
    → length (stream s id) + length es ≤ u64_max
    → es ≢ []
    → let (replies, t) = race s id (length (stream s id)) (es ∷ rest) in
      (replies ≡ done tt ∷ map (λ _. failed conflict) rest) × (stream t id ≡ stream s id ++ es)
unfolding race
race_first_wins s id es rest v room some_event =
    let n = length (stream s id) in
    let accepted = (append_fenced s id n es).0.1 (sym (length-events s id)) in
    let grown = (append_ok s id n es v room accepted).1 in
    let lost = race_stale (append s id n es).1 id n rest (outgrown s id es grown some_event) in
    (cc (accepted, lost.0), ap (map (λ e. e.event)) lost.1 ∙ grown)
