-- ===== src/Watching/Tests.antt =====
-- tellus/src/actor_context.rs: the theorems on watching at test data.
use tellus.Prelude.{ℕ, ◌+◌, ◌≤◌, false, some, List, [], ◌∷◌}
use tellus.Actor.{Incoming}
use tellus.Channel.Queue.{queue}
use tellus.Quota.{Quota}
use tellus.Watching.{Watching, Move, watches, other_terminates, takes_next, unwatch, run}
use tellus.Watching.Once.{signals_handed, is_watched, watch_count, signals_handed_le}

abbrev own : ℕ
own = 100

-- Nobody is watched yet, and everybody is alive.
abbrev start : Watching (queue (Incoming ℕ)) 1 own
start = record { mailbox = (Quota.unbounded, ([], false)); registries = λ j. some []; watched = [] }

-- The signal of 2 is in the queue when it is unwatched.
abbrev before : List Move
before = watches 2 ∷ other_terminates 3 ∷ watches 3 ∷ other_terminates 2 ∷ []

abbrev after : List Move
after = takes_next ∷ watches 3 ∷ takes_next ∷ takes_next ∷ []

signals_handed_le_example :
    let s = run (queue (Incoming ℕ)) 1 own before start in
    (signals_handed (queue (Incoming ℕ)) 1 own 2 before start
        + is_watched (queue (Incoming ℕ)) 1 own 2 s
      ≤ watch_count (queue (Incoming ℕ)) 1 own 2 before
        + is_watched (queue (Incoming ℕ)) 1 own 2 start)
    × (signals_handed (queue (Incoming ℕ)) 1 own 2 after (unwatch (queue (Incoming ℕ)) 1 own 2 s)
        ≤ 0)
signals_handed_le_example = signals_handed_le (queue (Incoming ℕ)) 1 own 2 before after start
