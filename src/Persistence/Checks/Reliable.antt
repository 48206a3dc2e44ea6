-- ===== src/Persistence/Checks/Reliable.antt =====
-- tellus/src/persistence_tests.rs: a store with the laws of the interface, none of whose calls
-- fails but by a conflict, in the hands of a check.
use mathlib.Core.Path.{subst}
use tellus.Prelude.{
  ℕ, ◌+◌, ◌≤◌, ◌≡◌, ◌≢◌, refl, ap, sym, ◌∙◌, List, [], ◌∷◌, ◌++◌, length, take, drop, u64_max, done,
  failed, ok, arith,
}
use tellus.Prelude.Int.{i64_max}
use tellus.Persistence.SeqNo.{SeqNo}
use tellus.Persistence.Id.{PersistenceId}
use tellus.Persistence.Store.{EncodedEvent, StoredEvent, conflict, EventStore}
use tellus.Persistence.Store.Numbered.{numbered}
use tellus.Persistence.Store.Contract.{IsEventStore, VersionsFit}
use tellus.Persistence.Checks.{expect, expect_append, refused, limit}

pub record IsReliable {World : Type 0} (E : EventStore World) (L : IsEventStore E) : Type 0 where
  pub append_done :
      (w : World) (id : PersistenceId) (es : List EncodedEvent)
      → L.Valid w
      → length (L.stream w id) + length es ≤ i64_max
      → (E.append w id (length (L.stream w id)) es).0 ≡ done tt
  pub append_stale :
      (w : World) (id : PersistenceId) (n : SeqNo) (es : List EncodedEvent)
      → L.Valid w
      → n ≢ length (L.stream w id)
      → length (L.stream w id) ≤ i64_max
      → n + length es ≤ i64_max
      → (E.append w id n es).0 ≡ failed conflict
  pub read_done :
      (w : World) (id : PersistenceId) (from limit : ℕ)
      → L.Valid w
      → VersionsFit (L.stream w id)
      → length (L.stream w id) ≤ i64_max
      → from ≤ length (L.stream w id)
      → limit ≤ i64_max
      → (page : List StoredEvent) × (E.read w id from limit ≡ done page)

-- Small numbers none of which is the given one.
abbrev pub AllStale : ℕ → List SeqNo → Type 0
AllStale n [] = Unit {0}
AllStale n (k ∷ ks) = (k ≢ n) × (k ≤ 9) × AllStale n ks

module _ {World : Type 0} (E : EventStore World) (L : IsEventStore E)
    (reliable : IsReliable E L) where
  -- A check with one ID has come from `w₀` to `w`.
  pub record Reached (w₀ : World) (id : PersistenceId) (es : List EncodedEvent) (w : World)
      : Type 0 where
    pub valid : L.Valid w
    pub own : L.stream w id ≡ es
    pub others : (j : PersistenceId) → id ≢ j → L.stream w j ≡ L.stream w₀ j

  pub accepts :
      (w₀ : World) (id : PersistenceId) (old : List EncodedEvent) (w : World) (n : SeqNo)
      (es : List EncodedEvent)
      → Reached w₀ id old w
      → length old ≡ n
      → n + length es ≤ i64_max
      → ((E.append w id n es).0 ≡ done tt) × Reached w₀ id (old ++ es) (E.append w id n es).1
  accepts w₀ id old w n es r e room =
      let here : length (L.stream w id) ≡ n = ap length r.own ∙ e in
      let room' : length (L.stream w id) + length es ≤ u64_max = omega (arith, here) in
      let accepted : (E.append w id n es).0 ≡ done tt =
        subst (λ k. (E.append w id k es).0 ≡ done tt) here
          (reliable.append_done w id es r.valid (omega (arith, here, room))) in
      (
        accepted,
        record {
          valid = L.append_Valid w id n es r.valid room';
          own = (L.append_ok w id n es r.valid room' accepted).1 ∙ ap (λ xs. xs ++ es) r.own;
          others = λ j ne. L.append_other w id j n es r.valid ne ∙ r.others j ne;
        },
      )

  pub rejects :
      (w₀ : World) (id : PersistenceId) (old : List EncodedEvent) (w : World) (n : SeqNo)
      (es : List EncodedEvent)
      → Reached w₀ id old w
      → n ≢ length old
      → length old + length es ≤ i64_max
      → n + length es ≤ i64_max
      → ((E.append w id n es).0 ≡ failed conflict) × Reached w₀ id old (E.append w id n es).1
  rejects w₀ id old w n es r ne room small =
      let here : length (L.stream w id) ≡ length old = ap length r.own in
      let room' : length (L.stream w id) + length es ≤ u64_max = omega (arith, here) in
      let reply : (E.append w id n es).0 ≡ failed conflict =
        reliable.append_stale w id n es r.valid (λ e. ne (e ∙ here)) (omega (arith, here)) small in
      (
        reply,
        record {
          valid = L.append_Valid w id n es r.valid room';
          own = L.append_conflict w id n es r.valid reply ∙ r.own;
          others = λ j d. L.append_other w id j n es r.valid d ∙ r.others j d;
        },
      )

  pub appends :
      (w₀ : World) (id : PersistenceId) (old : List EncodedEvent) (w : World) (n : SeqNo)
      (es : List EncodedEvent)
      → Reached w₀ id old w
      → length old ≡ n
      → n + length es ≤ i64_max
      → (w' : World) × (expect_append E w id n es ≡ ok w') × Reached w₀ id (old ++ es) w'
  unfolding expect_append
  appends w₀ id old w n es r e room =
      let (accepted, r') = accepts w₀ id old w n es r e room in
      ((E.append w id n es).1, rw accepted refl, r')

  pub refuses :
      (w₀ : World) (id : PersistenceId) (old : List EncodedEvent) (stale : List SeqNo) (w : World)
      (es : List EncodedEvent)
      → Reached w₀ id old w
      → AllStale (length old) stale
      → length old + length es ≤ 9
      → (w' : World) × (refused E w id stale es ≡ ok w') × Reached w₀ id old w'
  unfolding refused
  refuses w₀ id old [] w es r s room = (w, refl, r)
  refuses w₀ id old (n ∷ stale) w es r (ne, le, s) room =
      let (reply, r') = rejects w₀ id old w n es r ne (omega arith) (omega arith) in
      let (w', rest, last) = refuses w₀ id old stale (E.append w id n es).1 es r' s room in
      (w', rw reply rest, last)

  pub reads :
      (w : World) (id : PersistenceId) (es : List EncodedEvent) (from limit : ℕ)
      → L.Valid w
      → L.stream w id ≡ es
      → VersionsFit es
      → length es ≤ i64_max
      → from ≤ length es
      → limit ≤ i64_max
      → expect (E.read w id from limit) ≡ ok (take limit (drop from (numbered 0 es)))
  reads w id es from limit v e versions short le small =
      let (page, read) =
        reliable.read_done w id from limit v (subst VersionsFit (sym e) versions)
          (omega (arith, ap length e)) (omega (arith, ap length e, le)) small in
      ap expect read
      ∙ ap ok (
          L.read_ok w id from limit page v small read
          ∙ ap (λ xs. take limit (drop from (numbered 0 xs))) e)
