-- ===== src/Lib.antt =====
-- tellus is an actor library for Rust. This development models its core logic and proves what makes
-- it correct.
--
-- The parts and where they stand:
--   * Backoff, Config: tellus/src/backoff.rs and tellus/src/actor_config.rs, the pacing of restarts
--     and the configuration of an actor.
--   * Actor, Quota, Mailbox: `Incoming` of tellus/src/actor.rs, tellus/src/quota.rs and
--     tellus/src/mailbox.rs; Mailbox/Race is the concurrent run of senders and receiver, one atomic
--     access a step, Mailbox/Registry the registry of watchers. Channel is the interface of the flume
--     crate that they stand on.
--   * Watching: tellus/src/actor_context.rs, `watch`, `unwatch`, `next_incoming!` and the end of
--     `terminate`, on the mailbox and the registries.
--   * Host: tellus/src/host.rs, over an interface for what a host's calls reach.
--   * Supervision: tellus/src/actor_context.rs, `next_restart`, `await_backoff` and `await_restart`;
--     Lifecycle is the run loop of `spawn` around them, over the incarnations of one actor, and Task
--     the whole task on the mailbox and the registries, `terminate` included.
--   * Tree: tellus/src/actor_context.rs and tellus/src/actor_system.rs, all actors of a system with
--     their stop signals: `spawn_with_config`, `stop_children`, and how a stop of the system, of an
--     actor or of a restart goes down the tree.
--   * Root: tellus/src/actor_system.rs, `watch_root`, the sink of the system, `stop` and `terminated`.
--   * Asking: tellus/src/actor_ref.rs, tellus/src/ask.rs and `reply_to` of
--     tellus/src/actor_context.rs: `tell` with its dead letters, and the one reply of an `ask`.
--     Oneshot is the interface of Tokio's one-shot channel that Asking and Root stand on.
--   * Testing: tellus/src/testing.rs, `take_incoming` on the mailbox, and `settle`, which
--     Persistence/Settle/AsTested compares with that of the run loop.
--   * Persistence: tellus/src/persistence. SeqNo, Id, Versioned, Effect and EventSourced stand for
--     the files of those names; Store holds the two store traits as interfaces, with the laws that
--     their documentation asks for (Contract, Together); Checks is tellus/src/persistence_tests.rs,
--     the checks that every implementation of a store is tested with; InMemory
--     is in_memory_store.rs and fills these interfaces; Recovery and Settle are `recover` and `settle`
--     of spawn.rs, over any pair of stores with the laws; Life is the run loop of
--     `spawn_event_sourced` around them.
--   * Postgres: tellus-persistence-postgres/src/lib.rs and its migration. Postgres/Schema is each SQL
--     statement by what it does to the two tables; Postgres fills the interfaces of the stores.
--   * Report: tellus-comparison/src/bin/report.rs, the order of the measurements, the sections of the
--     report and `escape`.
--   * Prelude: lists and words over the native numbers, results of code that fails or panics, and
--     association lists in place of hash maps.
--
-- An event-sourced actor appends the events of each effect to its stream, applies them, runs the
-- effect's continuations and saves a snapshot (`settle`); a new incarnation starts from the snapshot
-- and replays the events behind it (`recover`). The two meet in Settle/Durable, for one incarnation,
-- and in Settle/Restarts, for those that fail and start again.
--
-- State is passed explicitly: a store's calls read and change a world. Code that may fail or panic
-- gives an `Attempt`, code that may only panic a `Caught`; where the program catches and logs, only
-- the value is left. A `u64` position saturates as in the source; a `Duration` is its nanoseconds.
--
-- Concurrency is explicit: a run is a list of moves, each of one sender or of the receiver (in
-- Watching, of an actor or of one that it watches; in Task, of an actor's task or of others that act
-- between its steps; in Tree, of any actor; in Asking, of the responder, the asker or the clock; in
-- Root, of the root, of another actor or of the system's owner), and the theorems are about every
-- list.
--
-- The replay loop runs on fuel, one turn for each page; fuel above the length of the stream is
-- proved to be enough, over a whole life above what the stream may come to. `take_incoming` runs on
-- fuel, one turn for each item and one more. A table is a list of rows, and an append that is
-- overtaken sees one table in its check and another in its insertion. A generation of stop signals is
-- a number, and a receiver of it that is left is found by going through the actors.
--
-- Parameters: the channels of flume and the one-shot channel of Tokio, the codecs (ciborium,
-- serde_json), any store with the laws, the user's actor, what Tokio reports of time and of its watch
-- channels, and what befalls each statement that is sent to PostgreSQL: it is executed, or it fails
-- with or without having been executed.
--
-- Not modelled: logging except dead letters; destructors, and so the order in which `terminate` drops
-- what was queued; serde derives; the scheduler; UUIDs, an ID being a number; tellus/src/sync.rs,
-- which only ignores a poisoned lock; unit tests and examples; and of tellus-comparison everything but the
-- above, such as files, processes and floating-point numbers.
pub mod Prelude
pub mod Actor
pub mod Asking
pub mod Backoff
pub mod Channel
pub mod Config
pub mod Host
pub mod Lifecycle
pub mod Mailbox
pub mod Oneshot
pub mod Persistence
pub mod Postgres
pub mod Quota
pub mod Report
pub mod Root
pub mod Supervision
pub mod Task
pub mod Testing
pub mod Tree
pub mod Watching
