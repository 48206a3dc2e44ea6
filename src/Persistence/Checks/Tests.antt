-- ===== src/Persistence/Checks/Tests.antt =====
-- tellus/src/persistence_tests.rs: the theorems on the checks at test data.
use tellus.Prelude.{ℕ, ◌≡◌, ◌≢◌, refl, [], ◌∷◌, ok}
use tellus.Prelude.Dict.{lookup}
use tellus.Persistence.Id.{PersistenceId}
use tellus.Persistence.InMemory.{InMemoryStore, empty_store, in_memory_events, events}
use tellus.Persistence.InMemory.Contract.{empty-IsGapless, in_memory-IsEventStore}
use tellus.Persistence.InMemory.Checked.{in_memory-IsReliable}
use tellus.Persistence.Checks.{event_store_contract}
use tellus.Persistence.Checks.Passing.{IsFresh, event_store_contract-Passes}

abbrev contract_id : ℕ → PersistenceId
contract_id n = record { entity_type = b'c' ∷ []; entity_id = n ∷ [] }

contract_id-unique : (i j : ℕ) → i ≢ j → contract_id i ≢ contract_id j
contract_id-unique i j n e = n (cc e)

empty-IsFresh :
    IsFresh in_memory_events in_memory-IsEventStore in_memory-IsReliable contract_id
      contract_id-unique 0 empty_store
unfolding events lookup
empty-IsFresh = record { valid = empty-IsGapless; unused = λ j h. refl }

event_store_contract-Passes_example :
    (w : InMemoryStore) × (event_store_contract in_memory_events empty_store contract_id
        (5 ∷ 2 ∷ 0 ∷ 1 ∷ 7 ∷ 6 ∷ 3 ∷ 4 ∷ [])
      ≡ ok w)
event_store_contract-Passes_example =
    event_store_contract-Passes in_memory_events in_memory-IsEventStore in_memory-IsReliable
      contract_id contract_id-unique empty_store 5 (2 ∷ 0 ∷ 1 ∷ 7 ∷ 6 ∷ 3 ∷ 4 ∷ []) empty-IsFresh
      refl
