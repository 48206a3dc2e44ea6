-- ===== src/Persistence/Checks/Passing.antt =====
-- tellus/src/persistence_tests.rs: a reliable store passes the checks of an event store.
use tellus.Prelude.{
  take, drop, ℕ, zero, suc, ◌+◌, ◌≤◌, ◌≡◌, ◌≢◌, refl, ap, sym, ◌∙◌, List, [], ◌∷◌, length, ok,
  arith,
}
use tellus.Prelude.Int.{i64_max}
use tellus.Prelude.Dict.{list_eq}
use tellus.Persistence.Id.{PersistenceId}
use tellus.Persistence.Store.{EncodedEvent, EventStore}
use tellus.Persistence.Store.Numbered.{numbered}
use tellus.Persistence.Store.Contract.{IsEventStore, VersionsFit}
use tellus.Persistence.Checks.{
  expect, limit, samples_from, sample_events, writer_events, each_matches, each_numbered,
  append_then_read_round_trips, conflicting_append_is_rejected, an_empty_append_is_fenced, race,
  concurrent_appends_are_fenced, streams_are_isolated, reads_are_paged_and_inclusive,
  event_store_contract, Checked, joined,
}
use tellus.Persistence.Checks.Racing.{losing, won_lem}
use tellus.Persistence.Checks.Reliable.{
  IsReliable, AllStale, Reached, accepts, appends, refuses, reads,
}

stale_at_two : AllStale 2 (0 ∷ 1 ∷ 7 ∷ [])
stale_at_two = (
  λ e. absurd (omega (arith, e)),
  omega arith,
  (λ e. absurd (omega (arith, e)), omega arith, (λ e. absurd (omega (arith, e)), omega arith, tt)),
)

pub samples_from-VersionsFit : (n count : ℕ) → n + count ≤ 9 → VersionsFit (samples_from n count)
unfolding samples_from
samples_from-VersionsFit n zero h = tt
samples_from-VersionsFit n (suc count) h =
    (omega arith, samples_from-VersionsFit (suc n) count (omega arith))

length-samples_from : (n count : ℕ) → length (samples_from n count) ≡ count
unfolding samples_from
length-samples_from n zero = refl
length-samples_from n (suc count) = ap suc (length-samples_from (suc n) count)

module _ {World : Type 0} (E : EventStore World) (L : IsEventStore E) (reliable : IsReliable E L)
    (ids : ℕ → PersistenceId) (unique : (i j : ℕ) → i ≢ j → ids i ≢ ids j) where
  -- The IDs from the `k`th on have not been used.
  pub record IsFresh (k : ℕ) (w : World) : Type 0 where
    pub valid : L.Valid w
    pub unused : (j : ℕ) → k ≤ j → L.stream w (ids j) ≡ []

  -- A check that passes, and uses no ID from the `k`th on.
  abbrev pub Passes : ℕ → Checked World → Type 0
  Passes k c = (w : World) × (c ≡ ok w) × IsFresh k w

  start : (k : ℕ) (w : World) → IsFresh k w → Reached E L reliable w (ids k) [] w
  start k w f = record { valid = f.valid; own = f.unused k (omega arith); others = λ j ne. refl }

  Reached-IsFresh :
      (k : ℕ) (es : List EncodedEvent) (w w' : World)
      → IsFresh k w
      → Reached E L reliable w (ids k) es w'
      → IsFresh (k + 1) w'
  Reached-IsFresh k es w w' f r = record {
    valid = r.valid;
    unused = λ j h.
        r.others (ids j) (unique k j (λ e. absurd (omega (arith, e, h))))
        ∙ f.unused j (omega arith);
  }

  reads_samples :
      (w : World) (id : PersistenceId) (count from most : ℕ)
      → L.Valid w
      → L.stream w id ≡ sample_events count
      → count ≤ 9
      → from ≤ count
      → most ≤ i64_max
      → expect (E.read w id from most)
        ≡ ok (take most (drop from (numbered 0 (sample_events count))))
  unfolding sample_events
  reads_samples w id count from most v own few le small =
      reads E L reliable w id (sample_events count) from most v own
        (samples_from-VersionsFit 0 count (omega arith))
        (omega (arith, length-samples_from 0 count)) (omega (arith, length-samples_from 0 count))
        small

  append_then_read-Passes :
      (k : ℕ) (w : World) → IsFresh k w → Passes (k + 1) (append_then_read_round_trips E w (ids k))
  unfolding append_then_read_round_trips sample_events each_numbered list_eq
  append_then_read-Passes k w f =
      let (w₁, e₁, r₁) =
        appends E L reliable w (ids k) [] w 0 (sample_events 3) (start k w f) refl (omega arith) in
      let read =
        reads_samples w₁ (ids k) 3 0 limit r₁.valid r₁.own (omega arith) (omega arith)
          (omega arith) in
      (w₁, rw (e₁, read) refl, Reached-IsFresh k _ w w₁ f r₁)

  conflicting_append-Passes :
      (k : ℕ) (w : World)
      → IsFresh k w
      → Passes (k + 1) (conflicting_append_is_rejected E w (ids k))
  unfolding conflicting_append_is_rejected sample_events each_matches list_eq
  conflicting_append-Passes k w f =
      let (w₁, e₁, r₁) =
        appends E L reliable w (ids k) [] w 0 (sample_events 2) (start k w f) refl (omega arith) in
      let (w₂, e₂, r₂) =
        refuses E L reliable w (ids k) (sample_events 2) (0 ∷ 1 ∷ 7 ∷ []) w₁ (sample_events 3) r₁
          stale_at_two (omega arith) in
      let read =
        reads_samples w₂ (ids k) 2 0 limit r₂.valid r₂.own (omega arith) (omega arith)
          (omega arith) in
      (w₂, rw (e₁, e₂, read) refl, Reached-IsFresh k _ w w₂ f r₂)

  an_empty_append-Passes :
      (k : ℕ) (w : World) → IsFresh k w → Passes (k + 1) (an_empty_append_is_fenced E w (ids k))
  unfolding an_empty_append_is_fenced sample_events
  an_empty_append-Passes k w f =
      let (w₁, e₁, r₁) =
        appends E L reliable w (ids k) [] w 0 [] (start k w f) refl (omega arith) in
      let (w₂, e₂, r₂) =
        appends E L reliable w (ids k) [] w₁ 0 (sample_events 2) r₁ refl (omega arith) in
      let (w₃, e₃, r₃) =
        appends E L reliable w (ids k) (sample_events 2) w₂ 2 [] r₂ refl (omega arith) in
      let (w₄, e₄, r₄) =
        refuses E L reliable w (ids k) (sample_events 2) (0 ∷ 1 ∷ 7 ∷ []) w₃ [] r₃ stale_at_two
          (omega arith) in
      let read =
        reads_samples w₄ (ids k) 2 0 limit r₄.valid r₄.own (omega arith) (omega arith)
          (omega arith) in
      (w₄, rw (e₁, e₂, e₃, e₄, read) refl, Reached-IsFresh k _ w w₄ f r₄)

  concurrent_appends-Passes :
      (k : ℕ) (w : World) (writer : ℕ) (writers : List ℕ)
      → IsFresh k w
      → length writers ≡ 7
      → Passes (k + 1) (concurrent_appends_are_fenced E w (ids k) (writer ∷ writers))
  unfolding concurrent_appends_are_fenced race joined
  concurrent_appends-Passes k w writer writers f seven =
      let (reply, r₁) =
        accepts E L reliable w (ids k) [] w 0 (writer_events writer) (start k w f) refl
          (unfold writer_events in omega arith) in
      let (w₂, lost, r₂) =
        losing E L reliable ids k (writer_events writer) writers w _ r₁
          (unfold writer_events in refl) in
      (
        w₂,
        rw (reply, lost)
            (won_lem E L reliable ids w₂ (ids k) writer (length writers) seven r₂.valid r₂.own),
        Reached-IsFresh k _ w w₂ f r₂,
      )

  streams_are_isolated-Passes :
      (k : ℕ) (w : World)
      → IsFresh k w
      → Passes (k + 2) (streams_are_isolated E w (ids k) (ids (k + 1)))
  unfolding streams_are_isolated sample_events samples_from list_eq
  streams_are_isolated-Passes k w f =
      let a = ids k in
      let b = ids (k + 1) in
      let differ : a ≢ b = unique k (k + 1) (λ e. absurd (omega (arith, e))) in
      let (w₁, e₁, r₁) =
        appends E L reliable w a [] w 0 (samples_from 0 1) (start k w f) refl (omega arith) in
      let f₁ = Reached-IsFresh k _ w w₁ f r₁ in
      let (w₂, e₂, r₂) =
        appends E L reliable w₁ b [] w₁ 0 (sample_events 1) (start (k + 1) w₁ f₁) refl
          (omega arith) in
      let here : Reached E L reliable w₂ a (samples_from 0 1) w₂ = record {
        valid = r₂.valid;
        own = r₂.others a (λ e. absurd (differ (sym e))) ∙ r₁.own;
        others = λ j ne. refl;
      } in
      let (w₃, e₃, r₃) =
        appends E L reliable w₂ a (samples_from 0 1) w₂ 1 (samples_from 1 1) here refl
          (omega arith) in
      let read_a =
        reads_samples w₃ a 2 0 limit r₃.valid r₃.own (omega arith) (omega arith) (omega arith) in
      let read_b =
        reads_samples w₃ b 1 0 limit r₃.valid (r₃.others b differ ∙ r₂.own) (omega arith)
          (omega arith) (omega arith) in
      let f₂ = Reached-IsFresh (k + 1) _ w₁ w₂ f₁ r₂ in
      (
        w₃,
        rw (e₁, e₂, e₃, read_a, read_b) refl,
        record {
          valid = r₃.valid;
          unused = λ j h.
              r₃.others (ids j) (unique k j (λ e. absurd (omega (arith, e, h))))
              ∙ f₂.unused j (omega arith);
        },
      )

  reads_are_paged-Passes :
      (k : ℕ) (w : World)
      → IsFresh k w
      → Passes (k + 1) (reads_are_paged_and_inclusive E w (ids k) (ids (k + 1)))
  unfolding reads_are_paged_and_inclusive sample_events list_eq
  reads_are_paged-Passes k w f =
      let (w₁, e₁, r₁) =
        appends E L reliable w (ids k) [] w 0 (sample_events 5) (start k w f) refl (omega arith) in
      let f₁ = Reached-IsFresh k _ w w₁ f r₁ in
      let read = λ (from count : ℕ) (le : from ≤ 5) (small : count ≤ i64_max).
        reads_samples w₁ (ids k) 5 from count r₁.valid r₁.own (omega arith) le small in
      let unknown =
        reads_samples w₁ (ids (k + 1)) 0 0 limit r₁.valid (f₁.unused (k + 1) (omega arith))
          (omega arith) (omega arith) (omega arith) in
      (
        w₁,
        rw
            (
              e₁,
              read 1 2 (omega arith) (omega arith),
              read 3 limit (omega arith) (omega arith),
              read 5 limit (omega arith) (omega arith),
              unknown,
            )
            refl,
        f₁,
      )

  -- A store with the laws of the interface, none of whose calls fails but an append by a conflict,
  -- passes every check of the contract, whatever the order in which it serves the eight racing
  -- writers. It is asked that the IDs are different and unused, and nothing of streams and positions
  -- above an `i64` and of versions above a `u16`.
  pub event_store_contract-Passes :
      (w : World) (writer : ℕ) (writers : List ℕ)
      → IsFresh 0 w
      → length writers ≡ 7
      → (w' : World) × (event_store_contract E w ids (writer ∷ writers) ≡ ok w')
  unfolding event_store_contract
  event_store_contract-Passes w writer writers f seven =
      let (w₁, e₁, f₁) = append_then_read-Passes 0 w f in
      let (w₂, e₂, f₂) = conflicting_append-Passes 1 w₁ f₁ in
      let (w₃, e₃, f₃) = an_empty_append-Passes 2 w₂ f₂ in
      let (w₄, e₄, f₄) = concurrent_appends-Passes 3 w₃ writer writers f₃ seven in
      let (w₅, e₅, f₅) = streams_are_isolated-Passes 4 w₄ f₄ in
      let (w₆, e₆, f₆) = reads_are_paged-Passes 6 w₅ f₅ in (w₆, rw (e₁, e₂, e₃, e₄, e₅) e₆)
