-- ===== src/Persistence/InMemory/Tests.antt =====
-- tellus/src/persistence/in_memory_store.rs: the theorems at test data.
use tellus.Prelude.{◌≡◌, [], ◌∷◌, ◌++◌, map, length, arith, done, failed, refl}
use tellus.Prelude.Dict.{lookup}
use tellus.Persistence.Store.{conflict}
use tellus.Persistence.InMemory.{empty_store, events}
use tellus.Persistence.InMemory.Contract.{stream, empty-IsGapless}
use tellus.Persistence.InMemory.Fencing.{race, race_first_wins}
use tellus.Persistence.Counter.{counter_id, event_of}

nothing_stored : length (stream empty_store counter_id) ≡ 0
unfolding events lookup
nothing_stored = refl

race_first_wins_example :
    let r =
      race empty_store counter_id
        (length (stream empty_store counter_id))
        ((event_of 5 ∷ []) ∷ (event_of 6 ∷ []) ∷ [] ∷ []) in
    (r.0 ≡ done tt ∷ map (λ _. failed conflict) ((event_of 6 ∷ []) ∷ [] ∷ []))
    × (stream r.1 counter_id ≡ stream empty_store counter_id ++ event_of 5 ∷ [])
race_first_wins_example =
    race_first_wins empty_store counter_id (event_of 5 ∷ []) ((event_of 6 ∷ []) ∷ [] ∷ [])
      empty-IsGapless (rw nothing_stored (omega arith)) (λ e. cc)
