-- ===== src/Root/Tests.antt =====
-- tellus/src/actor_system.rs: the theorem at test data.
use tellus.Prelude.{ℕ, ◌≢◌, false, List, [], ◌∷◌, arith}
use tellus.Oneshot.Slot.{slot, slot-IsOneshot}
use tellus.Root.{
  RootMove, other_watches, other_unwatches, root_terminates, Move, root, stops, new_root,
  watch_root, root_run, run,
}
use tellus.Root.Resolving.{ends, ends_before, calls_stop}
use tellus.Root.Starting.{Outcome, root_run-Outcome}

differ : ◌≢◌ {A = ℕ} 3 9
differ h = omega arith

-- Another actor watches the root, which is told to stop and terminates.
abbrev before : List (RootMove 9)
before = other_watches 3 differ ∷ []

abbrev after : List (Move 9)
after = root (other_unwatches 3 differ) ∷ stops ∷ root root_terminates ∷ []

root_run-Outcome_example :
    Outcome
      (slot (Unit {0}))
      9
      (slot-IsOneshot (Unit {0}))
      (ends (ends_before false before) after)
      (calls_stop false after)
      (run (slot (Unit {0})) 9 after (
        watch_root
          (slot (Unit {0}))
          9
          (root_run (slot (Unit {0})) 9 before (new_root (slot (Unit {0})) 9))))
root_run-Outcome_example =
    root_run-Outcome (slot (Unit {0})) 9 (slot-IsOneshot (Unit {0})) before after
