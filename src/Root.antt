-- ===== src/Root.antt =====
-- tellus/src/actor_system.rs: a system and its root actor. The system watches the root with a sink of
-- its own, which is also a holder of the sender that can stop the root.
pub mod Resolving
pub mod Starting
mod Tests
use tellus.Prelude.{
  ℕ, ◌≢◌, Bool, true, false, not, ◌||◌, Option, none, some, List, [], ◌∷◌, Result, ok, err,
}
use tellus.Prelude.Dict.{Dict}
use tellus.Actor.{ActorId}
use tellus.Oneshot.{Oneshot}
use tellus.Mailbox.{ActorTerminated, actor_terminated}
use tellus.Mailbox.Registry.{Watcher, WatcherRegistry, open_registry, add, remove, take_watchers}

-- The sink of the system, and that of an actor which watches the root.
pub data Sink : Type 0 where
  root_sink other_sink : Sink

abbrev pub is_root_sink : Sink → Bool
is_root_sink root_sink = true
is_root_sink other_sink = false

-- Whether the system's sink is registered, and so alive.
abbrev pub has_root_sink : Dict ActorId (Watcher Sink) → Bool
has_root_sink [] = false
has_root_sink ((i, w) ∷ d) = is_root_sink w.terminated_sink || has_root_sink d

-- What happens at the root's registry without the system. The IDs of the others are not the system's.
pub data RootMove (fresh : ActorId) : Type 0 where
  other_watches other_unwatches : (i : ActorId) → i ≢ fresh → RootMove fresh
  root_terminates : RootMove fresh

pub data Move (fresh : ActorId) : Type 0 where
  root : RootMove fresh → Move fresh
  stops drops_system : Move fresh

-- `fresh` is the new ID that the system watches the root with.
module _ (O : Oneshot (Unit {0})) (fresh : ActorId) where
  -- `failed` is a panic of `expect`.
  pub record ActorSystem : Type 0 where
    pub registry : WatcherRegistry Sink
    pub terminated_tx : Option (Unit {0})
    pub terminated_rx : O.Chan
    pub is_held : Bool
    pub stop_sent : Bool
    pub failed : Bool

  send_once : Option (Unit {0}) → ActorSystem → Result (Unit {0}) ActorTerminated × ActorSystem
  send_once none s = (err actor_terminated, s)
  send_once (some _) s =
      (ok tt, record s { terminated_tx = none; terminated_rx = (O.send s.terminated_rx tt).1 })

  -- `RootTerminatedSink::send_root_terminated`
  unfoldable pub send_root_terminated :
      ActorSystem → Result (Unit {0}) ActorTerminated × ActorSystem
  unfolding send_once
  send_root_terminated s = send_once s.terminated_tx s

  signal : Sink → ActorSystem → ActorSystem
  unfolding send_root_terminated
  signal root_sink s = (send_root_terminated s).1
  signal other_sink s = s

  -- The last part of the root's `terminate`.
  pub signal_watchers : List (Watcher Sink) → ActorSystem → ActorSystem
  unfolding signal
  signal_watchers [] s = s
  signal_watchers (w ∷ ws) s = signal_watchers ws (signal w.terminated_sink s)

  abbrev pub watcher : ActorId → Sink → Watcher Sink
  watcher i sink = record { watcher_id = i; terminated_sink = sink }

  abbrev closing : List (Watcher Sink) × WatcherRegistry Sink → ActorSystem → ActorSystem
  closing (told, r) s = signal_watchers told (record s { registry = r })

  root_step : RootMove fresh → ActorSystem → ActorSystem
  unfolding signal_watchers add remove take_watchers
  root_step (other_watches i e) s = record s {
    registry = (add (watcher i other_sink) s.registry).1;
  }
  root_step (other_unwatches i e) s = record s { registry = remove i s.registry }
  root_step root_terminates s = closing (take_watchers s.registry) s

  -- Before the system watches it, a root that has just been new_root.
  abbrev pub new_root : ActorSystem
  new_root = record {
    registry = open_registry Sink;
    terminated_tx = none;
    terminated_rx = O.channel;
    is_held = true;
    stop_sent = false;
    failed = false;
  }

  expects : Result (Unit {0}) ActorTerminated × ActorSystem → ActorSystem
  expects (ok _, s) = s
  expects (err e, s) = record s { failed = true }

  registered : Result (Unit {0}) ActorTerminated → ActorSystem → ActorSystem
  unfolding expects send_root_terminated
  registered (ok _) s = s
  registered (err e) s = expects (send_root_terminated s)

  unfoldable pub watch_root : ActorSystem → ActorSystem
  unfolding registered add
  watch_root s =
      let (registration, r) = add (watcher fresh root_sink) s.registry in
      registered registration
        (record s { registry = r; terminated_tx = some tt; terminated_rx = O.channel })

  unfoldable pub step : Move fresh → ActorSystem → ActorSystem
  unfolding root_step
  step (root m) s = root_step m s
  step stops s = record s { stop_sent = true }
  step drops_system s = record s {
    is_held = false;
    terminated_rx = O.drop_receiver s.terminated_rx;
  }

  abbrev pub root_run : List (RootMove fresh) → ActorSystem → ActorSystem
  root_run [] s = s
  root_run (m ∷ ms) s = root_run ms (step (root m) s)

  abbrev pub run : List (Move fresh) → ActorSystem → ActorSystem
  run [] s = s
  run (m ∷ ms) s = run ms (step m s)

  abbrev sink_held : WatcherRegistry Sink → Bool
  sink_held none = false
  sink_held (some watchers) = has_root_sink watchers

  -- What the root's receiver of the stop signal shows: a signal, or that no sender is left.
  unfoldable pub is_told_to_stop : ActorSystem → Bool
  is_told_to_stop s = s.stop_sent || not (s.is_held || sink_held s.registry)
