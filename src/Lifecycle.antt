-- ===== src/Lifecycle.antt =====
-- tellus/src/actor_context.rs, the run loop of `spawn`: one actor through its incarnations. What
-- `next_incoming!` gives at each turn is a list, in which none is the stop by the parent; what Tokio
-- reports while a restart is awaited is another.
pub mod Handing
pub mod Restarting
mod Tests
use tellus.Prelude.{
  ℕ, Bool, true, false, Option, none, some, List, [], ◌∷◌, ◌++◌, catch_and_log, if◌then◌else◌,
}
use tellus.Backoff.{Duration}
use tellus.Config.{SupervisionStrategy}
use tellus.Supervision.{Parent, Awaited, await_restart}
use tellus.Actor.{Actor, Incoming, Control, continue, stop}

-- How a run of turns ends: by the parent, by the actor's decision, by a failure, or not yet.
pub data Ended : Type 0 where
  stopped_by_parent stopped_itself failed waiting : Ended

-- What one incarnation did: whether it initialised, what it handled, how it ended, and the turns
-- that are left.
pub record Incarnation (M : Type 0) : Type 0 where
  pub up : Bool
  pub handled : List (Incoming M)
  pub ended : Ended
  pub rest : List (Option (Incoming M))

-- What Tokio reports at a failure: for how long the actor had been up, if it was, and the parent.
pub record Pause : Type 0 where
  pub elapsed : Duration
  pub parent : Parent

-- The incarnations of an actor, and whether `terminate` has been reached.
pub record Life (M : Type 0) : Type 0 where
  pub incarnations : List (Incarnation M)
  pub over : Bool

module _ (A : Actor) where
  abbrev pub Turns : Type 0
  Turns = List (Option (Incoming A.Message))

  unfoldable pub receive_incoming : Incoming A.Message → A.State → Option (Control A.State)
  receive_incoming incoming state = catch_and_log (A.receive incoming state)

  abbrev pub handing : Incoming A.Message → Incarnation A.Message → Incarnation A.Message
  handing incoming i = record i { handled = incoming ∷ i.handled }

  abbrev ends : Ended → Turns → Incarnation A.Message
  ends ended rest = record { up = true; handled = []; ended = ended; rest = rest }

  -- The inner loop.
  unfoldable pub serve : A.State → Turns → Incarnation A.Message
  unfolding receive_incoming
  serve state [] = ends waiting []
  serve state (none ∷ turns) = ends stopped_by_parent (none ∷ turns)
  serve state (some incoming ∷ turns) = handing incoming (elim (receive_incoming incoming state) [
    | none ↦ ends failed turns
    | some control ↦ elim control [
      | continue state' ↦ serve state' turns
      | stop ↦ ends stopped_itself turns
    ]
  ])

  started : Option A.State → Turns → Incarnation A.Message
  unfolding serve
  started none turns = record { up = false; handled = []; ended = failed; rest = turns }
  started (some state) turns = serve state turns

  unfoldable pub incarnate : Turns → Incarnation A.Message
  unfolding started
  incarnate turns = started (catch_and_log A.init) turns

  -- `up_since`, as far as it is read.
  abbrev pub uptime : Bool → Duration → Option Duration
  uptime true elapsed = some elapsed
  uptime false elapsed = none

  goes_on : Incarnation A.Message → Ended → Bool → Life A.Message → Life A.Message
  goes_on i failed true again = record { incarnations = i ∷ again.incarnations; over = again.over }
  goes_on i failed false again = record { incarnations = i ∷ []; over = true }
  goes_on i stopped_by_parent restarting again = record { incarnations = i ∷ []; over = true }
  goes_on i stopped_itself restarting again = record { incarnations = i ∷ []; over = true }
  goes_on i waiting restarting again = record { incarnations = i ∷ []; over = false }

  pausing : Incarnation A.Message → Ended → Life A.Message
  pausing i failed = record { incarnations = i ∷ []; over = false }
  pausing i stopped_by_parent = record { incarnations = i ∷ []; over = true }
  pausing i stopped_itself = record { incarnations = i ∷ []; over = true }
  pausing i waiting = record { incarnations = i ∷ []; over = false }

  -- The outer loop, with the counter `restarts`; the pauses that are known bound how far it is seen.
  unfoldable pub life : SupervisionStrategy → List Pause → ℕ → Turns → Life A.Message
  unfolding incarnate goes_on pausing
  life strategy [] restarts turns = let i = incarnate turns in pausing i i.ended
  life strategy (pause ∷ pauses) restarts turns =
      let i = incarnate turns in
      let awaited = await_restart strategy (uptime i.up pause.elapsed) restarts pause.parent in
      goes_on i i.ended awaited.restarting (life strategy pauses awaited.restarts i.rest)
