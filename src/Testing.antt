-- ===== src/Testing.antt =====
-- tellus/src/testing.rs: the helpers with which a user tests an actor without running it.
pub mod Taking
mod Tests
use tellus.Prelude.{
  ℕ, zero, suc, Bool, true, false, Option, none, some, List, [], ◌∷◌, Caught, returned, panicked,
}
use tellus.Actor.{Incoming}
use tellus.Channel.{Channel}
use tellus.Quota.{Quota, Shared}
use tellus.Config.{MailboxCapacity}
use tellus.Mailbox.{make_quota, try_recv}
use tellus.Persistence.Effect.{Effect}
use tellus.Persistence.EventSourced.{EventSourced}
use tellus.Persistence.Settle.{apply_events, run_thens}

pub record Settlement (State : Type 0) : Type 0 where
  pub state : State
  pub stop : Bool

-- What a test sees: what the call returns, unless it panics, and what the continuations have emitted.
pub record Tested (State Out : Type 0) : Type 0 where
  pub outcome : Caught (Settlement State)
  pub emitted : List Out

module _ (A : EventSourced) where
  unfoldable pub ran : A.State → Bool → List A.Out × Bool → Tested A.State A.Out
  ran s stop (out, true) = record {
    outcome = returned (record { state = s; stop = stop });
    emitted = out;
  }
  ran s stop (out, false) = record { outcome = panicked; emitted = out }

  unfoldable pub run_applied : Effect A.Event A.State A.Out → Caught A.State → Tested A.State A.Out
  unfolding ran
  run_applied effect panicked = record { outcome = panicked; emitted = [] }
  run_applied effect (returned s) = ran s effect.stop (run_thens s effect.thens)

  unfoldable pub settle : A.State → Effect A.Event A.State A.Out → Tested A.State A.Out
  unfolding run_applied
  settle s effect = run_applied effect (apply_events A s effect.events)

module _ {M : Type 0} (C : Channel (Incoming M)) where
  -- The mailbox of `TestContext::new`.
  unfoldable pub new_mailbox : C.Chan → Shared C
  unfolding make_quota
  new_mailbox c = (make_quota MailboxCapacity.unbounded, c)

  collected :
      Option (Incoming M)
      → Shared C
      → Option (List (Incoming M) × Shared C)
      → Option (List (Incoming M) × Shared C)
  collected none s rest = some ([], s)
  collected (some x) s none = none
  collected (some x) s (some (xs, s')) = some (x ∷ xs, s')

  -- Fuel for each call of `try_recv`.
  unfoldable pub take_incoming : ℕ → Shared C → Option (List (Incoming M) × Shared C)
  unfolding collected
  take_incoming zero s = none
  take_incoming (suc fuel) s = let r = try_recv C s in collected r.0 r.1 (take_incoming fuel r.1)
