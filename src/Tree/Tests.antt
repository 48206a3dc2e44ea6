-- ===== src/Tree/Tests.antt =====
-- tellus/src/actor_context.rs: the theorems at test data.
use tellus.Prelude.{◌≡◌, refl, some, ℕ, ◌≤◌, ◌<◌, ◌*◌, true, false, Option, arith}
use tellus.Tree.{
  Tree, new_system, step, Move, spawns, stops, hears_stop, children_gone, system_stops, Reach, here,
  next, is_terminated, is_open,
}
use tellus.Tree.Stopping.{child, children_first}
use tellus.Tree.Weight.{IsTeardown}
use tellus.Tree.Teardown.{TearsDown, AllTerminated, moves, stop_terminates}

abbrev after : Option Tree → Tree
after (some t) = t
after Option.none = new_system

-- The root spawns 1, which spawns 2.
abbrev one : Tree
one = after (step (spawns 0) new_system)

abbrev two : Tree
two = after (step (spawns 1) one)

two-Reach : Reach two
unfolding step
two-Reach = next (next here (spawns 0) refl) (spawns 1) refl

-- 1 stops: 2 has to hear of it before 1 is through.
abbrev stopping : Tree
stopping = after (step (stops 1) two)

one_waits : step (children_gone 1) stopping ≡ Option.none
unfolding step
one_waits = refl

abbrev heard : Tree
heard = after (step (hears_stop 2) stopping)

abbrev two_gone : Tree
two_gone = after (step (children_gone 2) heard)

abbrev one_gone : Tree
one_gone = after (step (children_gone 1) two_gone)

one_gone-Reach : Reach one_gone
unfolding step is_open
one_gone-Reach =
    next (next (next (next two-Reach (stops 1) refl) (hears_stop 2) refl) (children_gone 2) refl)
      (children_gone 1) refl

children_first_example : is_terminated (one_gone.node 2).phase ≡ true
unfolding step is_open
children_first_example =
    children_first {t = one_gone} 1 {c = 2} one_gone-Reach tt (child 2 0 (omega arith) refl)

abbrev told : Tree
told = after (step system_stops two)

told-Reach : Reach told
unfolding step
told-Reach = next two-Reach system_stops refl

stop_terminates_example :
    ((u : Tree) × TearsDown told u × AllTerminated u)
    × ((c : ℕ)
        → c < told.size
        → is_terminated (told.node c).phase ≡ false
        → (m : Move) × (u : Tree) × IsTeardown m × (step m told ≡ some u))
    × ((u : Tree) (run : TearsDown told u) → moves run ≤ 3 * told.size)
unfolding step
stop_terminates_example = stop_terminates {t = told} told-Reach refl
