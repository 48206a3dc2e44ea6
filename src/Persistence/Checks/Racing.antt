-- ===== src/Persistence/Checks/Racing.antt =====
-- tellus/src/persistence_tests.rs: the writers that race behind the first one, and what is read then.
use tellus.Prelude.{nat_eq_iff, ℕ, ◌≡◌, refl, ap, List, [], ◌∷◌, length, ok, arith}
use tellus.Prelude.Dict.{list_eq}
use tellus.Persistence.Id.{PersistenceId}
use tellus.Persistence.Store.{EncodedEvent, EventStore}
use tellus.Persistence.Store.Contract.{IsEventStore}
use tellus.Persistence.Checks.{limit, writer_events, race, won, joined}
use tellus.Persistence.Checks.Reliable.{IsReliable, Reached, rejects, reads}

module _ {World : Type 0} (E : EventStore World) (L : IsEventStore E) (reliable : IsReliable E L)
    (ids : ℕ → PersistenceId) where
  -- Behind the first writer, every one gets a conflict.
  pub losing :
      (k : ℕ) (es : List EncodedEvent) (writers : List ℕ) (w₀ w : World)
      → Reached E L reliable w₀ (ids k) es w
      → length es ≡ 3
      → (w' : World) × (race E w (ids k) writers ≡ ok (([], length writers), w'))
        × Reached E L reliable w₀ (ids k) es w'
  unfolding race writer_events
  losing k es [] w₀ w r three = (w, refl, r)
  losing k es (writer ∷ rest) w₀ w r three =
      let (reply, r₁) =
        rejects E L reliable w₀ (ids k) es w 0 (writer_events writer) r
          (λ e. absurd (omega (arith, e, three))) (omega (arith, three)) (omega arith) in
      let (w₂, e, r₂) = losing k es rest w₀ _ r₁ three in
      (w₂, rw (reply, e) (unfold joined in (ap (λ (n : ℕ). ok (([], n), w₂)) (omega arith))), r₂)

  pub won_lem :
      (w : World) (id : PersistenceId) (writer n : ℕ)
      → n ≡ 7
      → L.Valid w
      → L.stream w id ≡ writer_events writer
      → won E w id (writer ∷ [], n) ≡ ok w
  unfolding won writer_events list_eq
  won_lem w id writer n seven v own =
      let read =
        reads E L reliable w id (writer_events writer) 0 limit v own
          (omega arith, (omega arith, (omega arith, tt))) (omega arith) (omega arith)
          (omega arith) in
      rw (seven, read) (ground (arith, nat_eq_iff writer writer))
