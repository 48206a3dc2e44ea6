-- ===== src/Task/Stopping.antt =====
-- tellus/src/actor_context.rs, `terminate`: the end of a task, with what others do meanwhile.
use tellus.Prelude.{ℕ, ◌+◌, ◌-◌, ◌≡◌, refl, ap, ◌∙◌, Bool, Option, none, some, List, [], ◌∷◌, arith}
use tellus.Prelude.Dict.{nat_key}
use tellus.Backoff.{Duration}
use tellus.Config.{SupervisionStrategy}
use tellus.Supervision.{Parent}
use tellus.Actor.{ActorId, Incoming}
use tellus.Channel.{Channel}
use tellus.Task.{
  Acting, Phase, starting, serving, failed, stopping, dropping_mailbox, unwatching,
  stopping_children, signalling, over, Move, arrives, other_terminates, other_watches,
  other_unwatches, goes_on, Task, drain_mailbox, signal_watchers, advance, own_registry, step, run,
}

module _ {Sink : Type 0} (A : Acting) (C : Channel (Incoming A.Message)) (self_id : ActorId)
    (own_sink : Sink) (strategy : SupervisionStrategy) where
  -- How many steps are left of `terminate`, once it has begun.
  abbrev pub steps_left : Phase A.State → Option ℕ
  steps_left starting = none
  steps_left (serving state) = none
  steps_left (failed up) = none
  steps_left stopping = some 5
  steps_left dropping_mailbox = some 4
  steps_left unwatching = some 3
  steps_left stopping_children = some 2
  steps_left signalling = some 1
  steps_left over = some 0

  -- How many steps the task does.
  abbrev pub own_steps : List (Move A.Message Sink self_id) → ℕ
  own_steps [] = 0
  own_steps (arrives m ∷ ms) = own_steps ms
  own_steps (other_terminates i n ∷ ms) = own_steps ms
  own_steps (other_watches i sink n ∷ ms) = own_steps ms
  own_steps (other_unwatches i n ∷ ms) = own_steps ms
  own_steps (goes_on stopped elapsed parent ∷ ms) = 1 + own_steps ms

  -- With how many steps a task ends, and what it has handled till then.
  pub record IsEnding (n : ℕ) (t t' : Task A C self_id own_sink strategy) : Type 0 where
    pub left : steps_left t'.phase ≡ some n
    pub handled : t'.handled ≡ t.handled

  pub advance-IsEnding :
      (p : Phase A.State) (stopped : Bool) (elapsed : Duration) (parent : Parent) (n : ℕ)
      (t : Task A C self_id own_sink strategy)
      → t.phase ≡ p
      → steps_left p ≡ some n
      → IsEnding (n - 1) t (advance A C self_id own_sink strategy p stopped elapsed parent t)
  unfolding advance drain_mailbox signal_watchers
  advance-IsEnding starting stopped elapsed parent n t e h = absurd (cc h)
  advance-IsEnding (serving state) stopped elapsed parent n t e h = absurd (cc h)
  advance-IsEnding (failed up) stopped elapsed parent n t e h = absurd (cc h)
  advance-IsEnding stopping stopped elapsed parent n t e h = record {
    left = ground (arith, h);
    handled = refl;
  }
  advance-IsEnding dropping_mailbox stopped elapsed parent n t e h = record {
    left = ground (arith, h);
    handled = refl;
  }
  advance-IsEnding unwatching stopped elapsed parent n t e h = record {
    left = ground (arith, h);
    handled = refl;
  }
  advance-IsEnding stopping_children stopped elapsed parent n t e h = record {
    left = ground (arith, h);
    handled = refl;
  }
  advance-IsEnding signalling stopped elapsed parent n t e h = record {
    left = ground (arith, h);
    handled = refl;
  }
  advance-IsEnding over stopped elapsed parent n t e h = record {
    left = rw e (ground (arith, h));
    handled = refl;
  }

  -- Once `terminate` has begun nothing interrupts it: whatever others do between, each of the task's
  -- own steps is one of the five that are left, and the task is over after them; and no message or
  -- signal is handled any more.
  pub run-terminate :
      (ms : List (Move A.Message Sink self_id)) (t : Task A C self_id own_sink strategy) (n : ℕ)
      → steps_left t.phase ≡ some n
      → let t' = run A C self_id own_sink strategy ms t in
        (steps_left t'.phase ≡ some (n - own_steps ms)) × (t'.handled ≡ t.handled)
  unfolding step own_registry
  run-terminate [] t n h = (ground (arith, h), refl)
  run-terminate (arrives m ∷ ms) t n h =
      run-terminate ms (step A C self_id own_sink strategy (arrives m) t) n h
  run-terminate (other_terminates i e ∷ ms) t n h =
      run-terminate ms (step A C self_id own_sink strategy (other_terminates i e) t) n h
  run-terminate (other_watches i sink e ∷ ms) t n h =
      run-terminate ms (step A C self_id own_sink strategy (other_watches i sink e) t) n h
  run-terminate (other_unwatches i e ∷ ms) t n h =
      run-terminate ms (step A C self_id own_sink strategy (other_unwatches i e) t) n h
  run-terminate (goes_on stopped elapsed parent ∷ ms) t n h =
      let one = advance-IsEnding t.phase stopped elapsed parent n t refl h in
      let (left, same) =
        run-terminate ms (step A C self_id own_sink strategy (goes_on stopped elapsed parent) t)
          (n - 1) one.left in
      (left ∙ ap some (omega arith), same ∙ one.handled)
