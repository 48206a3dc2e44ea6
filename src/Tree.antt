-- ===== src/Tree.antt =====
-- tellus/src/actor_context.rs and tellus/src/actor_system.rs: the tree of actors and how it stops. An
-- actor's context holds the sender of a stop signal and a receiver, which its children clone;
-- `stop_children` starts a new generation of both, signals the old one and waits until each receiver
-- of it is dropped.
pub mod Sound
pub mod Keeping
pub mod Steps
pub mod Stopping
pub mod Weight
pub mod Teardown
mod Tests
use tellus.Prelude.{
  ◌≡◌, ℕ, zero, suc, ◌+◌, ◌-◌, Bool, true, false, not, ◌&&◌, ◌||◌, Option, none, some, List, [],
  ◌∷◌, ltb, nat_eq, if◌then◌else◌,
}
use tellus.Actor.{ActorId}

-- What `stop_children` is awaited for.
pub data Purpose : Type 0 where
  to_restart to_terminate : Purpose

-- Where an actor's task is: in its run loop, in `stop_children`, in the backoff of a restart, or over.
pub data Phase : Type 0 where
  serving : Phase
  stopping_children : Purpose → Phase
  backing_off : Phase
  terminated : Phase

-- `stopping_tx` is the generation of the sender and `stopping_rx` that of the receiver which the
-- context keeps. `parent` is the parent and the generation of the receiver cloned from it, none for
-- the root.
pub record Node : Type 0 where
  pub parent : Option (ActorId × ℕ)
  pub stopping_tx : ℕ
  pub stopping_rx : ℕ
  pub phase : Phase

-- The actors that have been spawned are those below `size`. `stop_sent` is the channel of the system.
pub record Tree : Type 0 where
  pub size : ℕ
  pub node : ActorId → Node
  pub stop_sent : Bool

-- An actor as it is spawned.
abbrev pub spawned : Option (ActorId × ℕ) → Node
spawned parent = record { parent = parent; stopping_tx = 0; stopping_rx = 0; phase = serving }

-- `spawn_root`
abbrev pub new_system : Tree
new_system = record { size = 1; node = λ id. spawned none; stop_sent = false }

abbrev pub update : ActorId → Node → Tree → Tree
update id n t = record t { node = λ j. if nat_eq id j then n else t.node j }

abbrev pub is_terminated : Phase → Bool
is_terminated terminated = true
is_terminated serving = false
is_terminated (stopping_children p) = false
is_terminated backing_off = false

abbrev pub same_receiver : ActorId → ℕ → Option (ActorId × ℕ) → Bool
same_receiver id g none = false
same_receiver id g (some (p, h)) = nat_eq p id && nat_eq h g

-- A child holds its receiver until its task is over.
abbrev pub holds_receiver : ActorId → ℕ → Node → Bool
holds_receiver id g n = same_receiver id g n.parent && not (is_terminated n.phase)

any_holds : (ActorId → Node) → ActorId → ℕ → ℕ → Bool
any_holds node id g zero = false
any_holds node id g (suc k) = holds_receiver id g (node k) || any_holds node id g k

-- Whether `stopping_tx.closed()` of the generation is still pending: a child's receiver is left, or
-- the context's own.
unfoldable pub is_open : Tree → ActorId → ℕ → Bool
unfolding any_holds
is_open t id g = nat_eq (t.node id).stopping_rx g || any_holds t.node id g t.size

-- Whether the stop signal of the parent has been sent, or its sender replaced.
abbrev pub told : Tree → Option (ActorId × ℕ) → Bool
told t none = t.stop_sent
told t (some (p, g)) = ltb g (t.node p).stopping_tx

-- The part of `stop_children` before it waits.
unfoldable pub stop_children : Purpose → Node → Node
stop_children purpose n = record n {
  stopping_tx = n.stopping_tx + 1;
  stopping_rx = n.stopping_tx + 1;
  phase = stopping_children purpose;
}

abbrev pub after_closed : Purpose → Phase
after_closed to_restart = backing_off
after_closed to_terminate = terminated

pub data Move : Type 0 where
  -- `context.spawn`, in `init` or `receive`.
  spawns : ActorId → Move
  -- A failure for which the policy grants a restart.
  restarts : ActorId → Move
  -- The run loop ends: `Control::Stop`, a failure that is not followed by a restart, or a stop by
  -- the parent.
  stops : ActorId → Move
  hears_stop : ActorId → Move
  -- `closed` resolves.
  children_gone : ActorId → Move
  -- The backoff has elapsed.
  wakes : ActorId → Move
  -- `ActorSystem::stop`
  system_stops : Move

spawn : ActorId → Node → Phase → Tree → Option Tree
spawn id n serving t =
    some (update t.size (spawned (some (id, n.stopping_rx))) (record t { size = suc t.size }))
spawn id n other t = none

-- `await_restart` looks for a stop first.
restart : ActorId → Node → Phase → Tree → Option Tree
unfolding stop_children
restart id n serving t =
    if told t n.parent then none else some (update id (stop_children to_restart n) t)
restart id n other t = none

terminate : ActorId → Node → Phase → Tree → Option Tree
unfolding stop_children
terminate id n serving t = some (update id (stop_children to_terminate n) t)
terminate id n other t = none

hear : ActorId → Node → Phase → Tree → Option Tree
unfolding stop_children
hear id n serving t =
    if told t n.parent then some (update id (stop_children to_terminate n) t) else none
hear id n backing_off t =
    if told t n.parent then some (update id (stop_children to_terminate n) t) else none
hear id n other t = none

close : ActorId → Node → Phase → Tree → Option Tree
close id n (stopping_children purpose) t =
    if is_open t id (n.stopping_tx - 1)
    then none
    else some (update id (record n { phase = after_closed purpose }) t)
close id n other t = none

wake : ActorId → Node → Phase → Tree → Option Tree
wake id n backing_off t =
    if told t n.parent then none else some (update id (record n { phase = serving }) t)
wake id n other t = none

abbrev pub if_spawned : ActorId → Tree → Option Tree → Option Tree
if_spawned id t r = if ltb id t.size then r else none

-- `none` where the move cannot be made.
unfoldable pub step : Move → Tree → Option Tree
unfolding spawn restart terminate hear close wake is_open
step (spawns id) t = if_spawned id t (spawn id (t.node id) (t.node id).phase t)
step (restarts id) t = if_spawned id t (restart id (t.node id) (t.node id).phase t)
step (stops id) t = if_spawned id t (terminate id (t.node id) (t.node id).phase t)
step (hears_stop id) t = if_spawned id t (hear id (t.node id) (t.node id).phase t)
step (children_gone id) t = if_spawned id t (close id (t.node id) (t.node id).phase t)
step (wakes id) t = if_spawned id t (wake id (t.node id) (t.node id).phase t)
step system_stops t = some (record t { stop_sent = true })

pub data Reach : Tree → Type 0 where
  here : Reach new_system
  next : {t u : Tree} → Reach t → (m : Move) → step m t ≡ some u → Reach u
