-- ===== src/Task.antt =====
-- tellus/src/actor_context.rs, the task of `spawn` as a whole: the run loop over the mailbox and the
-- watched actors, with what the actor does through its context, up to the end of `terminate`. A task
-- goes on in steps, between which others send and terminate. Its children are left to Tree: a step
-- that awaits that they have terminated is done once they have.
pub mod Sending
pub mod Line
pub mod Order
pub mod Leaving
pub mod Others
pub mod Stopping
pub mod Watchers
pub mod Signalled
pub mod Whole
pub mod Runs
mod Tests
use tellus.Prelude.{
  ℕ, ◌≢◌, Bool, true, false, Option, none, some, List, [], ◌∷◌, ◌++◌, Attempt, catch_and_log,
  if◌then◌else◌,
}
use tellus.Prelude.Dict.{Dict}
use tellus.Backoff.{Duration}
use tellus.Config.{SupervisionStrategy}
use tellus.Supervision.{Parent, Awaited, await_restart}
use tellus.Actor.{ActorId, Incoming, Control, continue, stop}
use tellus.Channel.{Channel}
use tellus.Mailbox.{try_send_message}
use tellus.Mailbox.Registry.{Watcher, WatcherRegistry, add, remove, take_watchers}
use tellus.Watching.{Watching, set_registry, watch, unwatch, terminates, next_incoming}

-- What `init` and `receive` do through the context. A message that the actor tells itself, at once or
-- as the reply of a request, and that is refused is gone; its dead letter is left to Asking.
pub data Action (M : Type 0) : Type 0 where
  watches unwatches : ActorId → Action M
  tells_self : M → Action M

-- The actions stand also where the call fails behind them.
pub record Acting : Type 1 where
  pub Message : Type 0
  pub State : Type 0
  pub Error : Type 0
  pub init : List (Action Message) × Attempt State Error
  pub receive : Incoming Message → State → List (Action Message) × Attempt (Control State) Error

-- Where the task is; `failed` with whether the incarnation had initialised. From `stopping` on it is in
-- `terminate`, each phase named for what is next.
pub data Phase (State : Type 0) : Type 0 where
  starting : Phase State
  serving : State → Phase State
  failed : Bool → Phase State
  stopping dropping_mailbox unwatching stopping_children signalling over : Phase State

pub data Move (M Sink : Type 0) (self_id : ActorId) : Type 0 where
  -- Someone tells the actor a message, or an actor terminates.
  arrives : M → Move M Sink self_id
  other_terminates : (i : ActorId) → i ≢ self_id → Move M Sink self_id
  -- Another actor watches this one, or does not any more.
  other_watches : (i : ActorId) → Sink → i ≢ self_id → Move M Sink self_id
  other_unwatches : (i : ActorId) → i ≢ self_id → Move M Sink self_id
  -- The task goes on: with whether the parent's stop is seen, and for how long the actor had been up.
  goes_on : Bool → Duration → Parent → Move M Sink self_id

module _ {Sink : Type 0} (A : Acting) (C : Channel (Incoming A.Message)) (self_id : ActorId)
    (own_sink : Sink) (strategy : SupervisionStrategy) where
  -- `handled` is the trace of what `receive` has been called with, `signalled` of who has been told
  -- of the termination, `dropped` of what has been drained from the mailbox.
  pub record Task : Type 0 where
    pub context : Watching C self_id own_sink
    pub phase : Phase A.State
    pub restarts : ℕ
    pub handled : List (Incoming A.Message)
    pub dropped : List (Incoming A.Message)
    pub signalled : List (Watcher Sink)

  pub act : Action A.Message → Watching C self_id own_sink → Watching C self_id own_sink
  act (watches other) s = watch C self_id own_sink other s
  act (unwatches other) s = unwatch C self_id own_sink other s
  act (tells_self m) s = record s { mailbox = (try_send_message C s.mailbox m).1 }

  pub act_all : List (Action A.Message) → Watching C self_id own_sink → Watching C self_id own_sink
  unfolding act
  act_all [] s = s
  act_all (a ∷ rest) s = act_all rest (act a s)

  initialized : Option A.State → Phase A.State
  initialized none = failed false
  initialized (some state) = serving state

  decided : Option (Control A.State) → Phase A.State
  decided none = failed true
  decided (some (continue state)) = serving state
  decided (some stop) = stopping

  restarting : Bool → Phase A.State
  restarting true = starting
  restarting false = stopping

  -- `receive_incoming`, with what `next_incoming!` gives.
  handle : A.State → Option (Incoming A.Message) × Watching C self_id own_sink → Task → Task
  unfolding act_all decided
  handle state (none, s) t = record t { context = s }
  handle state (some incoming, s) t =
      let (actions, reply) = A.receive incoming state in
      record t {
        context = act_all actions s;
        phase = decided (catch_and_log reply);
        handled = t.handled ++ incoming ∷ [];
      }

  pub serve : A.State → Bool → Task → Task
  unfolding handle
  serve state true t = record t { phase = stopping }
  serve state false t = handle state (next_incoming C self_id own_sink t.context) t

  -- `take_watched`: the actor is removed from the registry of each actor that it watches.
  remove_all :
      Dict ActorId (Unit {0}) → (ActorId → WatcherRegistry Sink) → ActorId → WatcherRegistry Sink
  remove_all [] rs = rs
  remove_all ((other, _) ∷ watched) rs =
      remove_all watched (set_registry C self_id own_sink rs other (remove self_id (rs other)))

  -- The first part of `terminate`: what is queued is drained, to be dropped.
  pub drain_mailbox : Task → Task
  drain_mailbox t =
      let (drained, c) = C.drain t.context.mailbox.1 in
      record t {
        context = record t.context { mailbox = (t.context.mailbox.0, c) };
        phase = dropping_mailbox;
        dropped = drained;
      }

  -- Then the receiver is dropped; a send that slips past the drain stays in the channel.
  pub drop_mailbox : Watching C self_id own_sink → Watching C self_id own_sink
  drop_mailbox s = record s { mailbox = (s.mailbox.0, C.disconnect s.mailbox.1) }

  pub drop_watched : Watching C self_id own_sink → Watching C self_id own_sink
  unfolding remove_all
  drop_watched s = record s { registries = remove_all s.watched s.registries; watched = [] }

  -- The last part: the watchers, which no one can add to any more.
  pub signal_watchers : List (Watcher Sink) × WatcherRegistry Sink → Task → Task
  signal_watchers (told, r) t = record t {
    context = record t.context {
      registries = set_registry C self_id own_sink t.context.registries self_id r;
    };
    phase = over;
    signalled = told;
  }

  pub advance : Phase A.State → Bool → Duration → Parent → Task → Task
  unfolding act_all initialized serve restarting drain_mailbox drop_mailbox drop_watched
      signal_watchers
  advance starting stopped elapsed parent t =
      let (actions, reply) = A.init in
      record t { context = act_all actions t.context; phase = initialized (catch_and_log reply) }
  advance (serving state) stopped elapsed parent t = serve state stopped t
  advance (failed up) stopped elapsed parent t =
      let awaited = await_restart strategy (if up then some elapsed else none) t.restarts parent in
      record t { phase = restarting awaited.restarting; restarts = awaited.restarts }
  advance stopping stopped elapsed parent t = drain_mailbox t
  advance dropping_mailbox stopped elapsed parent t = record t {
    context = drop_mailbox t.context;
    phase = unwatching;
  }
  advance unwatching stopped elapsed parent t = record t {
    context = drop_watched t.context;
    phase = stopping_children;
  }
  advance stopping_children stopped elapsed parent t = record t { phase = signalling }
  advance signalling stopped elapsed parent t =
      signal_watchers (take_watchers (t.context.registries self_id)) t
  advance over stopped elapsed parent t = t

  pub own_registry : WatcherRegistry Sink → Task → Task
  own_registry r t = record t {
    context = record t.context {
      registries = set_registry C self_id own_sink t.context.registries self_id r;
    };
  }

  unfoldable pub step : Move A.Message Sink self_id → Task → Task
  unfolding advance own_registry
  step (arrives m) t = record t {
    context = record t.context { mailbox = (try_send_message C t.context.mailbox m).1 };
  }
  step (other_terminates other e) t = record t {
    context = terminates C self_id own_sink other t.context;
  }
  step (other_watches i sink e) t =
      own_registry
        (add (record { watcher_id = i; terminated_sink = sink }) (t.context.registries self_id)).1 t
  step (other_unwatches i e) t = own_registry (remove i (t.context.registries self_id)) t
  step (goes_on stopped elapsed parent) t = advance t.phase stopped elapsed parent t

  abbrev pub run : List (Move A.Message Sink self_id) → Task → Task
  run [] t = t
  run (m ∷ ms) t = run ms (step m t)
