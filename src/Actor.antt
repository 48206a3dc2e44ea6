-- ===== src/Actor.antt =====
-- tellus/src/actor.rs and tellus/src/actor_id.rs: what an actor receives.
use tellus.Prelude.{ℕ, Attempt}

-- A UUID, of which the code uses the equality alone.
abbrev pub ActorId : Type 0
ActorId = ℕ

pub data Incoming (M : Type 0) : Type 0 where
  message : M → Incoming M
  terminated : ActorId → Incoming M

-- The decision of a `receive`.
pub data Control (S : Type 0) : Type 0 where
  continue : S → Control S
  stop : Control S

-- An actor as its user writes it. Both methods may fail and may panic; what they do through the
-- context is not part of this record.
pub record Actor : Type 1 where
  pub Message : Type 0
  pub State : Type 0
  pub Error : Type 0
  pub init : Attempt State Error
  pub receive : Incoming Message → State → Attempt (Control State) Error
