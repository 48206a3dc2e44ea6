-- ===== src/Persistence/InMemory/Gapless.antt =====
-- tellus/src/persistence/in_memory_store.rs: what the calls do to each stream.
use native.Mathlib.Decide.{dec_le}
use tellus.Prelude.{
  ℕ, suc, ◌+◌, ◌-◌, ◌≤◌, ◌≡◌, ap, ◌∙◌, min, List, [], ◌∷◌, ◌++◌, length, take, drop, take_nil,
  drop_all, take-min_length, length-drop, arith, Bool-cases, inl, inr, nat_eq, saturating_add,
  u64_max, if◌then◌else◌,
}
use mathlib.Core.List.{append-nil, append_assoc}
use tellus.Prelude.Dict.{◌==◌, insert, lookup-insert}
use tellus.Persistence.SeqNo.{advanced_by, advanced_by_exact}
use tellus.Persistence.Id.{PersistenceId, id_key}
use tellus.Persistence.Store.{EncodedEvent, StoredEvent}
use tellus.Persistence.Store.Numbered.{numbered, numbered_at}
use tellus.Persistence.InMemory.{InMemoryStore, events, push_all, append, page}

-- Pushing one by one appends the events with the numbers that follow.
pub push_all-eq-append :
    (next n : ℕ) (es : List EncodedEvent) (stream : List StoredEvent)
    → next + n + length es ≤ u64_max
    → push_all next n es stream ≡ stream ++ numbered (next + n) es
unfolding push_all
push_all-eq-append next n [] stream h = rw append-nil
push_all-eq-append next n (e ∷ es) stream h =
    push_all-eq-append next (suc n) es _ (omega arith)
    ∙ append_assoc stream (record { seq_no = advanced_by next n; event = e } ∷ []) _
    ∙ rw (advanced_by_exact next n (omega arith)) (
        ap (λ ys. stream ++ record { seq_no = next + n; event = e } ∷ ys)
          (numbered_at {m = next + suc n} {n = suc (next + n)} es (omega arith)))

pub page-eq-take-drop :
    (from limit : ℕ) (xs : List StoredEvent)
    → length xs ≤ u64_max
    → page from limit xs ≡ take limit (drop from xs)
unfolding page
page-eq-take-drop from limit xs h = elim (dec_le from (length xs)) [
  | yes p ↦
      let s : min from (length xs) ≡ from = omega arith in
      let e : min (saturating_add from limit) (length xs) - from
          ≡ min limit (length (drop from xs)) =
        omega (arith, length-drop from xs) in
      rw s (rw e (take-min_length limit (drop from xs)))
  | no p ↦
      let s : min from (length xs) ≡ length xs = omega arith in
      rw (s, drop_all (length xs) xs (omega arith), drop_all from xs (omega arith)) (simp take_nil)
]

events-insert :
    (s : InMemoryStore) (id j : PersistenceId) (stream : List StoredEvent)
    → events (record s { streams = insert id stream s.streams }) j
      ≡ (if id == j then stream else events s j)
unfolding events
events-insert s id j stream = rw lookup-insert (ground arith)

-- An append changes the stream of its own ID alone, and that only where the numbers agree.
pub events-append :
    (s : InMemoryStore) (id j : PersistenceId) (n : ℕ) (es : List EncodedEvent)
    → events (append s id n es).1 j ≡ (
        if id == j
        then if nat_eq (length (events s id)) n then push_all n 0 es (events s id) else events s id
        else events s j)
unfolding append
events-append s id j n es = elim (Bool-cases (nat_eq (length (events s id)) n)) [
  | inl e ↦ rw e (events-insert s id j (push_all n 0 es (events s id)))
  | inr e ↦ rw e (events-insert s id j (events s id))
]
