-- ===== src/Testing/Tests.antt =====
-- tellus/src/testing.rs: the theorems at test data.
use tellus.Prelude.{ℕ, ◌≡◌, ◌⊎◌, refl, none, some, false, List, [], ◌∷◌, arith}
use tellus.Actor.{Incoming, message, terminated}
use tellus.Channel.Queue.{queue, queue-IsChannel}
use tellus.Quota.{Shared}
use tellus.Testing.{new_mailbox, take_incoming, settle}
use tellus.Testing.Taking.{sends_all, take_incoming-sends_all}
use tellus.Persistence.InMemory.{empty_store}
use tellus.Persistence.Counter.{Counter, in_memory, counter_id, adding}
use tellus.Persistence.Settle
use tellus.Persistence.Settle.AsTested.{NotDurable, Agree, settle-eq-tested}

abbrev own : List (Incoming ℕ)
own = message 2 ∷ terminated 7 ∷ message 5 ∷ []

take_incoming-sends_all_example :
    (s : Shared (queue (Incoming ℕ))) × (take_incoming (queue (Incoming ℕ)) 4 (
        sends_all
          (queue (Incoming ℕ))
          (queue-IsChannel (Incoming ℕ))
          own
          (new_mailbox (queue (Incoming ℕ)) ([], false)))
      ≡ some (own, s))
    × (s.1.0 ≡ [])
take_incoming-sends_all_example =
    take_incoming-sends_all (queue (Incoming ℕ)) (queue-IsChannel (Incoming ℕ)) 4 own ([], false)
      refl refl (omega arith)

-- The second event is refused by a panic.
settle-eq-tested_example :
    (NotDurable Counter in_memory empty_store counter_id 0 (3 ∷ 0 ∷ [])
      × ((tellus.Persistence.Settle.settle Counter in_memory empty_store counter_id 0 0
            (adding (3 ∷ 0 ∷ []))).outcome
          ≡ none)
      × ((tellus.Persistence.Settle.settle Counter in_memory empty_store counter_id 0 0
            (adding (3 ∷ 0 ∷ []))).emitted
          ≡ []))
    ⊎ Agree Counter in_memory (settle Counter 0 (adding (3 ∷ 0 ∷ []))) (
        tellus.Persistence.Settle.settle Counter in_memory empty_store counter_id 0 0
          (adding (3 ∷ 0 ∷ [])))
settle-eq-tested_example =
    settle-eq-tested Counter in_memory empty_store counter_id 0 0 (adding (3 ∷ 0 ∷ []))
