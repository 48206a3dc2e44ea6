-- ===== src/Persistence/Life.antt =====
-- tellus/src/persistence/spawn.rs, the run loop of `spawn_event_sourced`: one event-sourced actor
-- through its incarnations, over its stores. The turns and the pauses are those of Lifecycle.

pub mod Turn
pub mod Incarnations
mod Tests
use tellus.Prelude.{
  ℕ, Bool, true, false, Option, none, some, List, [], ◌∷◌, catch_and_log, if◌then◌else◌,
}
use tellus.Config.{SupervisionStrategy}
use tellus.Supervision.{Awaited, await_restart}
use tellus.Actor.{Incoming}
use tellus.Lifecycle.{Pause}
use tellus.Persistence.SeqNo.{SeqNo}
use tellus.Persistence.Id.{PersistenceId}
use tellus.Persistence.Effect.{Effect}
use tellus.Persistence.EventSourced.{EventSourced, Persistence}
use tellus.Persistence.Recovery.{Recovered, recover}
use tellus.Persistence.Settle.{Settled, Settling, settle}

module _ {World : Type 0} (A : EventSourced) (P : Persistence World A) where
  abbrev pub Turns : Type 0
  Turns = List (Option (Incoming A.Command))

  -- How a run of turns ends, with what an actor that waits for its next turn holds.
  pub data Ended : Type 0 where
    stopped_by_parent stopped_itself failed : Ended
    waiting : PersistenceId → A.State → SeqNo → Ended
    out_of_fuel : Ended

  pub record Incarnation : Type 0 where
    pub up : Bool
    pub ended : Ended
    pub world : World
    pub rest : Turns

  abbrev pub ends : Ended → World → Turns → Incarnation
  ends ended w rest = record { up = true; ended = ended; world = w; rest = rest }

  unfoldable pub handle : Incoming A.Command → A.State → Option (Effect A.Event A.State A.Out)
  handle incoming state = catch_and_log (A.handle incoming state)

  -- The inner loop.
  unfoldable pub serve : World → PersistenceId → A.State → SeqNo → Turns → Incarnation
  unfolding handle
  serve w id state n [] = ends (waiting id state n) w []
  serve w id state n (none ∷ turns) = ends stopped_by_parent w (none ∷ turns)
  serve w id state n (some incoming ∷ turns) = elim (handle incoming state) [
    | none ↦ ends failed w turns
    | some effect ↦
        let settling = settle A P w id state n effect in
        elim settling.outcome [
          | none ↦ ends failed settling.world turns
          | some settled ↦ elim settled.stop [
            | Bool.true ↦ ends stopped_itself settling.world turns
            | Bool.false ↦ serve settling.world id settled.state settled.next_seq_no turns
          ]
        ]
  ]

  abbrev pub down : Ended → World → Turns → Incarnation
  down ended w rest = record { up = false; ended = ended; world = w; rest = rest }

  -- `actor.recovered`, and the inner loop.
  unfoldable pub reconcile : World → Recovered A.State → Turns → Incarnation
  unfolding serve
  reconcile w r turns = elim (catch_and_log (A.recovered r.state)) [
    | none ↦ down failed w turns
    | some state ↦ serve w r.id state r.next_seq_no turns
  ]

  after_recover : World → Option (Option (Recovered A.State)) → Turns → Incarnation
  unfolding reconcile
  after_recover w none turns = down out_of_fuel w turns
  after_recover w (some none) turns = down failed w turns
  after_recover w (some (some r)) turns = reconcile w r turns

  -- A stop by the parent beats the recovery.
  unfoldable pub incarnate : ℕ → World → Turns → Incarnation
  unfolding after_recover
  incarnate fuel w (none ∷ turns) = down stopped_by_parent w (none ∷ turns)
  incarnate fuel w [] = after_recover w (recover A P fuel w) []
  incarnate fuel w (some incoming ∷ turns) =
      after_recover w (recover A P fuel w) (some incoming ∷ turns)

  abbrev pub uptime : Bool → ℕ → Option ℕ
  uptime true elapsed = some elapsed
  uptime false elapsed = none

  goes_on : Incarnation → Ended → Bool → List Incarnation → List Incarnation
  goes_on i failed true again = i ∷ again
  goes_on i failed false again = i ∷ []
  goes_on i stopped_by_parent restarting again = i ∷ []
  goes_on i stopped_itself restarting again = i ∷ []
  goes_on i (waiting id state n) restarting again = i ∷ []
  goes_on i out_of_fuel restarting again = i ∷ []

  -- The outer loop: its incarnations, as far as the pauses are known.
  unfoldable pub life : ℕ → SupervisionStrategy → List Pause → ℕ → World → Turns → List Incarnation
  unfolding incarnate goes_on
  life fuel strategy [] restarts w turns = incarnate fuel w turns ∷ []
  life fuel strategy (pause ∷ pauses) restarts w turns =
      let i = incarnate fuel w turns in
      let awaited = await_restart strategy (uptime i.up pause.elapsed) restarts pause.parent in
      goes_on i i.ended awaited.restarting
        (life fuel strategy pauses awaited.restarts i.world i.rest)
