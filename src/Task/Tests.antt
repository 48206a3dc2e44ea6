-- ===== src/Task/Tests.antt =====
-- tellus/src/actor_context.rs: the theorems on an actor's task at test data.
use tellus.Prelude.{ℕ, ◌+◌, ◌≡◌, ◌≢◌, refl, false, some, List, [], ◌∷◌, Attempt, done, err, arith}
use tellus.Prelude.Dict.{lookup, insert}
use tellus.Config.{SupervisionStrategy}
use tellus.Supervision.{Parent}
use tellus.Actor.{ActorId, Incoming, message, terminated, Control, continue, stop}
use tellus.Channel.Queue.{queue, queue-IsChannel}
use tellus.Quota.{Quota}
use tellus.Mailbox.{actor_terminated, try_send_message}
use tellus.Mailbox.Registry.{Watcher, add}
use tellus.Mailbox.Registry.Closing.{signals}
use tellus.Watching.{watch, terminates, next_incoming}
use tellus.Task.{
  Action, watches, tells_self, Acting, starting, stopping, over, Move, arrives, other_terminates,
  other_watches, other_unwatches, goes_on, Task, step, run,
}
use tellus.Task.Whole.{IsUp, IsWhole}
use tellus.Task.Runs.{run-IsWhole}
use tellus.Task.Line.{line}
use tellus.Task.Order.{run-line}
use tellus.Task.Signalled.{signalled-run}

abbrev own : ℕ
own = 100

-- Stops with a watched actor.
abbrev receives : Incoming ℕ → ℕ → List (Action ℕ) × Attempt (Control ℕ) ℕ
receives (message m) n = (tells_self 5 ∷ [], done (continue (n + m)))
receives (terminated i) n = (watches i ∷ [], done stop)

abbrev acting : Acting
acting = record {
  Message = ℕ;
  State = ℕ;
  Error = ℕ;
  init = (watches 2 ∷ watches 3 ∷ [], done 0);
  receive = receives;
}

abbrev TaskOf : Type 0
TaskOf = Task acting (queue (Incoming ℕ)) 1 own SupervisionStrategy.stop

abbrev fresh : TaskOf
fresh = record {
  context = record {
    mailbox = (Quota.unbounded, ([], false));
    registries = λ j. some [];
    watched = [];
  };
  phase = starting;
  restarts = 0;
  handled = [];
  dropped = [];
  signalled = [];
}

fresh-IsUp :
    IsUp acting
      (queue (Incoming ℕ))
      (queue-IsChannel (Incoming ℕ))
      1
      own
      SupervisionStrategy.stop
      fresh.context
unfolding lookup
fresh-IsUp = record {
  watching = record {
    connected = refl;
    sound = λ j. record { keyed = tt; nodup = tt };
    covered = λ j h. absurd (cc h);
  };
  tidy = record {
    noted = λ j h. absurd (ground (arith, h));
    closed = λ j h. absurd (omega (arith, h));
  };
}

not_own : ◌≢◌ {A = ActorId} 2 1
not_own = λ e. absurd (omega (arith, e))

neither_own : ◌≢◌ {A = ActorId} 3 1
neither_own = λ e. absurd (omega (arith, e))

abbrev parent : Parent
parent = record { changed_before = some false; changed_after = some false; stop_wins = false }

abbrev go : Move ℕ ℕ 1
go = goes_on false 0 parent

abbrev moves : List (Move ℕ ℕ 1)
moves =
    go
    ∷ arrives 7
    ∷ go
    ∷ other_watches 2 200 not_own
    ∷ other_terminates 2 not_own
    ∷ go
    ∷ go
    ∷ arrives 6
    ∷ go
    ∷ arrives 9
    ∷ go
    ∷ arrives 8
    ∷ go
    ∷ go
    ∷ go
    ∷ []

run_over : (run acting (queue (Incoming ℕ)) 1 own SupervisionStrategy.stop moves fresh).phase ≡ over
unfolding step next_incoming try_send_message watch terminates lookup insert
run_over = refl

run-IsWhole_example :
    let t = run acting (queue (Incoming ℕ)) 1 own SupervisionStrategy.stop moves fresh in
    IsWhole acting
      (queue (Incoming ℕ))
      (queue-IsChannel (Incoming ℕ))
      1
      own
      SupervisionStrategy.stop
      t.phase
      t.context
run-IsWhole_example =
    run-IsWhole acting (queue (Incoming ℕ)) (queue-IsChannel (Incoming ℕ)) 1 own
      SupervisionStrategy.stop moves fresh fresh-IsUp

abbrev ending : TaskOf
ending = record {
  context = record {
    mailbox = (Quota.unbounded, (message 4 ∷ [], false));
    registries = λ j. some ((2, record { watcher_id = 2; terminated_sink = 200 }) ∷ []);
    watched = (5, tt) ∷ [];
  };
  phase = stopping;
  restarts = 0;
  handled = message 3 ∷ [];
  dropped = [];
  signalled = [];
}

abbrev meanwhile : List (Move ℕ ℕ 1)
meanwhile =
    go ∷ go ∷ arrives 8 ∷ other_unwatches 2 not_own ∷ other_watches 3 300 neither_own ∷ go ∷ go ∷ []

signalled-run_example :
    let t =
      run acting
        (queue (Incoming ℕ))
        1
        own
        SupervisionStrategy.stop
        (other_watches 2 200 not_own ∷ go ∷ [])
        (step acting
          (queue (Incoming ℕ))
          1
          own
          SupervisionStrategy.stop
          go
          (run acting (queue (Incoming ℕ)) 1 own SupervisionStrategy.stop meanwhile ending)) in
    (t.phase ≡ over)
    × (signals 3 t.signalled ≡ 1)
    × ((w : Watcher ℕ) → (add w (t.context.registries 1)).0 ≡ err actor_terminated)
unfolding lookup
signalled-run_example =
    signalled-run acting (queue (Incoming ℕ)) 1 own SupervisionStrategy.stop meanwhile
      (other_watches 2 200 not_own ∷ go ∷ []) false 0 parent ending
      ((2, record { watcher_id = 2; terminated_sink = 200 }) ∷ []) 3 refl refl
      (record { keyed = (refl, tt); nodup = (refl, tt) }) neither_own

run-line_example :
    line acting
      (queue (Incoming ℕ))
      (queue-IsChannel (Incoming ℕ))
      1
      own
      SupervisionStrategy.stop
      (run acting (queue (Incoming ℕ)) 1 own SupervisionStrategy.stop moves fresh)
    ≡ 7 ∷ 5 ∷ 5 ∷ 6 ∷ 9 ∷ []
unfolding step next_incoming try_send_message watch terminates lookup insert
run-line_example =
    run-line acting (queue (Incoming ℕ)) (queue-IsChannel (Incoming ℕ)) 1 own
      SupervisionStrategy.stop moves fresh refl
