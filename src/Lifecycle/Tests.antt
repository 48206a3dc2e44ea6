-- ===== src/Lifecycle/Tests.antt =====
-- tellus/src/actor_context.rs: the theorems at test data.
use tellus.Prelude.{
  ℕ, ◌+◌, ◌≡◌, ◌≤◌, refl, true, false, Option, some, List, [], ◌∷◌, ◌++◌, map, length, Attempt,
  done, crashed, arith, nat_eq, if◌then◌else◌,
}
use tellus.Config.{RestartPolicy, restart, default_backoff}
use tellus.Backoff.{duration, factor}
use tellus.Supervision.{Parent, await_restart}
use tellus.Actor.{Actor, Incoming, message, terminated, Control, continue, stop}
use tellus.Lifecycle.{Ended, stopped_itself, Pause, Life, life}
use tellus.Lifecycle.Handing.{all_handled, left, life-all_handled}
use tellus.Lifecycle.Restarting.{incarnations-le}

-- It adds up, panics at 0 and stops at a termination.
abbrev add : Incoming ℕ → ℕ → Attempt (Control ℕ) ⊥
add (message n) s = if nat_eq n 0 then crashed else done (continue (s + n))
add (terminated id) s = done stop

abbrev Adder : Actor
Adder = record { Message = ℕ; State = ℕ; Error = ⊥; init = done 0; receive = add }

abbrev twice : RestartPolicy
twice = record { max_restarts = 2; backoff = default_backoff; reset_after = 1000 }

abbrev undisturbed : Parent
undisturbed = record { changed_before = some false; changed_after = some false; stop_wins = false }

abbrev soon : Pause
soon = record { elapsed = 5; parent = undisturbed }

abbrev turns : List (Option (Incoming ℕ))
turns =
    some (message 1)
    ∷ some (message 0)
    ∷ some (message 2)
    ∷ some (terminated 7)
    ∷ some (message 3)
    ∷ []

abbrev seen : Life ℕ
seen = life Adder (restart twice) (soon ∷ soon ∷ []) 0 turns

life-all_handled_example :
    turns ≡ map some (all_handled seen.incarnations) ++ left turns seen.incarnations
life-all_handled_example = life-all_handled Adder (restart twice) (soon ∷ soon ∷ []) 0 turns

seen_is : seen ≡ record {
  incarnations =
      record {
        up = true;
        handled = message 1 ∷ message 0 ∷ [];
        ended = Ended.failed;
        rest = some (message 2) ∷ some (terminated 7) ∷ some (message 3) ∷ [];
      }
      ∷ record {
        up = true;
        handled = message 2 ∷ terminated 7 ∷ [];
        ended = stopped_itself;
        rest = some (message 3) ∷ [];
      }
      ∷ [];
  over = true;
}
unfolding life await_restart duration factor
seen_is = refl

incarnations-le_example : length seen.incarnations + 0 ≤ 3
incarnations-le_example =
    incarnations-le Adder twice (soon ∷ soon ∷ []) 0 turns (omega arith) (omega arith)
