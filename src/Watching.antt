-- ===== src/Watching.antt =====
-- tellus/src/actor_context.rs, `watch`, `unwatch`, `take_watched_for` and the turn of `next_incoming!`,
-- with the registries of tellus/src/mailbox.rs: one actor, the watcher, and those that it watches.
-- A termination takes the registered watchers and signals them in one step, and the watcher's own
-- mailbox outlives its context.
pub mod Delivery
pub mod Receiving
pub mod Runs
pub mod Once
pub mod Tidy
pub mod Handing
mod Tests
use tellus.Prelude.{
  ℕ, Bool, true, false, Option, none, some, List, [], ◌∷◌, Result, ok, err, nat_eq, if◌then◌else◌,
}
use tellus.Prelude.Dict.{nat_key, Dict, lookup, insert, erase}
use tellus.Actor.{ActorId, Incoming, message, terminated}
use tellus.Channel.{Channel}
use tellus.Quota.{Shared}
use tellus.Mailbox.{ActorTerminated, send_terminated, try_recv}
use tellus.Mailbox.Registry.{Watcher, WatcherRegistry, add, remove, take_watchers}

-- What the watcher does, and the terminations of others.
pub data Move : Type 0 where
  watches : ActorId → Move
  unwatches : ActorId → Move
  other_terminates : ActorId → Move
  takes_next : Move

module _ {M Sink : Type 0} (C : Channel (Incoming M)) (self_id : ActorId) (own_sink : Sink) where
  -- The watcher's mailbox, everyone's registry, and the watcher's own note of whom it watches, which
  -- holds a handle of each one's registry.
  pub record Watching : Type 0 where
    pub mailbox : Shared C
    pub registries : ActorId → WatcherRegistry Sink
    pub watched : Dict ActorId (Unit {0})

  abbrev pub set_registry :
      (ActorId → WatcherRegistry Sink)
      → ActorId
      → WatcherRegistry Sink
      → ActorId
      → WatcherRegistry Sink
  set_registry registries id r j = if nat_eq id j then r else registries j

  -- `SelfRef::make_watcher`
  abbrev pub make_watcher : Watcher Sink
  make_watcher = record { watcher_id = self_id; terminated_sink = own_sink }

  pub signal_unless : Result (Unit {0}) ActorTerminated → ActorId → Watching → Watching
  signal_unless (ok _) other s = s
  signal_unless (err e) other s = record s { mailbox = (send_terminated C s.mailbox other).1 }

  unfoldable pub watch : ActorId → Watching → Watching
  unfolding signal_unless add send_terminated
  watch other s =
      let (registration, r) = add make_watcher (s.registries other) in
      signal_unless registration other (record s {
        registries = set_registry s.registries other r;
        watched = insert other tt s.watched;
      })

  pub unwatch_known : Option (Unit {0}) → ActorId → Watching → Watching
  unwatch_known none other s = s
  unwatch_known (some _) other s = record s {
    registries = set_registry s.registries other (remove self_id (s.registries other));
    watched = erase other s.watched;
  }

  unfoldable pub unwatch : ActorId → Watching → Watching
  unfolding unwatch_known remove
  unwatch other s = unwatch_known (lookup other s.watched) other s

  -- The watchers that are the watcher's own, each through its sink.
  unfoldable pub signal_all : ActorId → List (Watcher Sink) → Shared C → Shared C
  signal_all other [] m = m
  signal_all other (w ∷ ws) m =
      let m' = if nat_eq w.watcher_id self_id then (send_terminated C m other).1 else m in
      signal_all other ws m'

  -- The last part of the other actor's `terminate`.
  unfoldable pub terminates : ActorId → Watching → Watching
  unfolding signal_all take_watchers send_terminated
  terminates other s =
      let (told, r) = take_watchers (s.registries other) in
      record s {
        mailbox = signal_all other told s.mailbox;
        registries = set_registry s.registries other r;
      }

  -- `take_watched_for`, for a signal that has been received.
  pub filter_signal : Option (Unit {0}) → ActorId → Watching → Option (Incoming M) × Watching
  filter_signal none other s = (none, s)
  filter_signal (some _) other s =
      (some (terminated other), record s { watched = erase other s.watched })

  pub filter_incoming : Option (Incoming M) → Watching → Option (Incoming M) × Watching
  unfolding filter_signal
  filter_incoming none s = (none, s)
  filter_incoming (some (message m)) s = (some (message m), s)
  filter_incoming (some (terminated other)) s = filter_signal (lookup other s.watched) other s

  -- One turn of `next_incoming!`: `none` where it goes on waiting.
  unfoldable pub next_incoming : Watching → Option (Incoming M) × Watching
  unfolding filter_incoming try_recv
  next_incoming s =
      let (incoming, mailbox) = try_recv C s.mailbox in
      filter_incoming incoming (record s { mailbox = mailbox })

  unfoldable pub step : Move → Watching → Watching
  unfolding watch unwatch terminates next_incoming
  step (watches other) s = watch other s
  step (unwatches other) s = unwatch other s
  step (other_terminates other) s = terminates other s
  step takes_next s = (next_incoming s).1

  abbrev pub run : List Move → Watching → Watching
  run [] s = s
  run (m ∷ ms) s = run ms (step m s)
