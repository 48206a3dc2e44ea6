-- ===== src/Supervision.antt =====
-- tellus/src/actor_context.rs: `next_restart`, `await_backoff`, `await_restart`. What Tokio reports
-- is an argument: how long the actor has been up, whether the parent's stop signal has changed, and
-- which future wins a race.
pub mod Streak
pub mod Decision
mod Tests
use tellus.Prelude.{ℕ, ◌+◌, Bool, true, false, Option, none, some, leb, nat_eq, if◌then◌else◌}
use tellus.Backoff.{Duration, duration}
use tellus.Config.{RestartPolicy, SupervisionStrategy, stop, restart}

pub data Restart : Type 0 where
  after : Duration → Restart
  limit_exceeded not_configured : Restart

-- `up_since.is_some_and(|up_since| up_since.elapsed() >= policy.reset_after)`
ended : RestartPolicy → Option Duration → Bool
ended p none = false
ended p (some uptime) = leb p.reset_after uptime

next_in_streak : RestartPolicy → ℕ → Restart × ℕ
next_in_streak p restarts =
    if leb p.max_restarts restarts
    then (limit_exceeded, restarts)
    else (after (duration p.backoff restarts), restarts + 1)

-- The decision, and the counter that the run loop keeps.
unfoldable pub next_restart : SupervisionStrategy → Option Duration → ℕ → Restart × ℕ
unfolding ended next_in_streak
next_restart stop uptime restarts = (not_configured, restarts)
next_restart (restart p) uptime restarts = next_in_streak p (if ended p uptime then 0 else restarts)

-- `has_changed().unwrap_or(true)`: a dropped sender counts as a stop.
abbrev pub unwrap_or_true : Option Bool → Bool
unwrap_or_true none = true
unwrap_or_true (some b) = b

pub data Interrupted : Type 0 where
  uninterrupted stopped_by_parent : Interrupted

-- What the parent's side shows while a restart is awaited: the probe before the children are
-- stopped, the probe of a zero delay, and whether the stop wins the race against the sleep.
pub record Parent : Type 0 where
  pub changed_before : Option Bool
  pub changed_after : Option Bool
  pub stop_wins : Bool

unfoldable pub await_backoff : Duration → Parent → Interrupted
await_backoff delay parent =
    let stopped =
      if nat_eq delay 0 then unwrap_or_true parent.changed_after else parent.stop_wins in
    if stopped then stopped_by_parent else uninterrupted

-- Whether the children are stopped on the way, and whether the actor restarts.
pub record Awaited : Type 0 where
  pub restarts : ℕ
  pub children_stopped : Bool
  pub restarting : Bool

abbrev is_uninterrupted : Interrupted → Bool
is_uninterrupted uninterrupted = true
is_uninterrupted stopped_by_parent = false

await_delay : Duration → ℕ → Parent → Awaited
await_delay delay restarts parent =
    if unwrap_or_true parent.changed_before
    then record { restarts = restarts; children_stopped = false; restarting = false }
    else record {
      restarts = restarts;
      children_stopped = true;
      restarting = is_uninterrupted (await_backoff delay parent);
    }

await_decision : Restart × ℕ → Parent → Awaited
unfolding await_delay
await_decision (after delay, restarts) parent = await_delay delay restarts parent
await_decision (limit_exceeded, restarts) parent = record {
  restarts = restarts;
  children_stopped = false;
  restarting = false;
}
await_decision (not_configured, restarts) parent = record {
  restarts = restarts;
  children_stopped = false;
  restarting = false;
}

unfoldable pub await_restart : SupervisionStrategy → Option Duration → ℕ → Parent → Awaited
unfolding await_decision next_restart await_backoff
await_restart strategy uptime restarts parent =
    await_decision (next_restart strategy uptime restarts) parent
