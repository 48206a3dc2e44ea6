-- ===== src/Mailbox/Registry.antt =====
-- tellus/src/mailbox.rs, `WatcherRegistry`: who is told of an actor's termination. Every call holds
-- the lock, so the calls of all the owners of clones come one after the other.
pub mod Closing
pub mod Finding
use tellus.Prelude.{
  ℕ, ◌+◌, ◌≡◌, ◌≢◌, refl, ap, ◌∙◌, Bool, true, false, Option, none, some, List, [], ◌∷◌, ◌++◌, map,
  Result, ok, err, arith, if◌then◌else◌,
}
use tellus.Prelude.Dict.{
  nat_key, ◌==◌, Dict, lookup, insert, erase, lookup-insert, lookup-erase, NodupKeys,
  insert-NodupKeys, erase-NodupKeys,
}
use tellus.Actor.{ActorId}
use tellus.Mailbox.{ActorTerminated, actor_terminated}

-- `Sink` is the watching actor's sender with its type erased.
pub record Watcher (Sink : Type 0) : Type 0 where
  pub watcher_id : ActorId
  pub terminated_sink : Sink

-- `none` once `take` has closed the registration.
abbrev pub WatcherRegistry : Type 0 → Type 0
WatcherRegistry Sink = Option (Dict ActorId (Watcher Sink))

abbrev pub open_registry : (Sink : Type 0) → WatcherRegistry Sink
open_registry Sink = some []

module _ {Sink : Type 0} where
  unfoldable pub or_insert :
      Watcher Sink
      → Dict ActorId (Watcher Sink)
      → Option (Watcher Sink)
      → Dict ActorId (Watcher Sink)
  or_insert w watchers none = insert w.watcher_id w watchers
  or_insert w watchers (some old) = watchers

  unfoldable pub add :
      Watcher Sink → WatcherRegistry Sink → Result (Unit {0}) ActorTerminated × WatcherRegistry Sink
  unfolding or_insert
  add w none = (err actor_terminated, none)
  add w (some watchers) = (ok tt, some (or_insert w watchers (lookup w.watcher_id watchers)))

  unfoldable pub remove : ActorId → WatcherRegistry Sink → WatcherRegistry Sink
  remove watcher_id none = none
  remove watcher_id (some watchers) = some (erase watcher_id watchers)

  unfoldable pub take_watchers : WatcherRegistry Sink → List (Watcher Sink) × WatcherRegistry Sink
  take_watchers none = ([], none)
  take_watchers (some watchers) = (map (λ e. e.1) watchers, none)
