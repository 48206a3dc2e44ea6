-- ===== src/Persistence/Effect.antt =====
-- tellus/src/persistence/effect.rs: the decision of an event-sourced actor. A continuation reads
-- the state and emits something to the outside, or panics.
use tellus.Prelude.{Bool, true, false, List, [], ◌∷◌, ◌++◌, Caught}

abbrev pub Then : Type 0 → Type 0 → Type 0
Then State Out = State → Caught Out

pub record Effect (Event State Out : Type 0) : Type 0 where
  pub events : List Event
  pub stop : Bool
  pub thens : List (Then State Out)

module _ {Event State Out : Type 0} where
  unfoldable pub persist_all : List Event → Effect Event State Out
  persist_all events = record { events = events; stop = false; thens = [] }

  -- `Effect::none`
  unfoldable pub nothing : Effect Event State Out
  unfolding persist_all
  nothing = persist_all []

  unfoldable pub persist : Event → Effect Event State Out
  unfolding persist_all
  persist event = persist_all (event ∷ [])

  unfoldable pub and_stop : Effect Event State Out → Effect Event State Out
  and_stop e = record e { stop = true }

  -- `Effect::stop`
  unfoldable pub stopping : Effect Event State Out
  unfolding nothing and_stop
  stopping = and_stop nothing

  -- `Effect::then`
  unfoldable pub and_then_run : Effect Event State Out → Then State Out → Effect Event State Out
  and_then_run e f = record e { thens = e.thens ++ f ∷ [] }
