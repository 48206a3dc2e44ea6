-- ===== src/Task/Signalled.antt =====
-- tellus/src/actor_context.rs, `terminate`: who is told of the termination.
use mathlib.Core.Path.{subst}
use tellus.Prelude.{
  suc, err, ◌≡◌, ◌≢◌, refl, ap, sym, ◌∙◌, Bool, Bool-cases, inl, inr, none, some, List, [], ◌∷◌,
  nat_eq, nat_eq_iff, arith, if◌then◌else◌,
}
use tellus.Prelude.Dict.{nat_key, Dict, lookup}
use tellus.Backoff.{Duration}
use tellus.Config.{SupervisionStrategy}
use tellus.Supervision.{Parent}
use tellus.Actor.{ActorId, Incoming}
use tellus.Channel.{Channel}
use tellus.Mailbox.{actor_terminated}
use tellus.Mailbox.Registry.{Watcher, WatcherRegistry, add, remove, take_watchers}
use tellus.Mailbox.Registry.Closing.{
  take_watchers-closed, is_watching, is_some, signals, signals-values, IsOpen,
}
use tellus.Watching.{terminates}
use tellus.Task.{
  Acting, Phase, starting, serving, failed, stopping, dropping_mailbox, unwatching,
  stopping_children, signalling, over, Move, arrives, other_terminates, other_watches,
  other_unwatches, goes_on, Task, signal_watchers, advance, own_registry, step, run,
}
use tellus.Task.Stopping.{steps_left, own_steps, run-terminate}
use tellus.Task.Watchers.{own_calls, IsWatchedBy, own_self, run-IsWatchedBy}

module _ {Sink : Type 0} (A : Acting) (C : Channel (Incoming A.Message)) (self_id : ActorId)
    (own_sink : Sink) (strategy : SupervisionStrategy) where
  abbrev TaskOf : Type 0
  TaskOf = Task A C self_id own_sink strategy

  abbrev MoveOf : Type 0
  MoveOf = Move A.Message Sink self_id

  taken_lem :
      (f : ActorId → Bool) (r : WatcherRegistry Sink) (j : ActorId)
      → IsWatchedBy A C self_id own_sink strategy f r
      → j ≢ self_id
      → signals j (take_watchers r).0 ≡ (if f j then 1 else 0)
  unfolding take_watchers
  taken_lem f none j v n = absurd v
  taken_lem f (some d) j (v, h) n =
      signals-values j d v.keyed v.nodup ∙ ap (λ (b : Bool). if b then 1 else 0) (h j n)

  last_step :
      (p : Phase A.State) → steps_left A C self_id own_sink strategy p ≡ some 1 → p ≡ signalling
  last_step starting h = absurd (cc h)
  last_step (serving state) h = absurd (cc h)
  last_step (failed up) h = absurd (cc h)
  last_step stopping h = absurd (ground (arith, h))
  last_step dropping_mailbox h = absurd (ground (arith, h))
  last_step unwatching h = absurd (ground (arith, h))
  last_step stopping_children h = absurd (ground (arith, h))
  last_step signalling h = refl
  last_step over h = absurd (ground (arith, h))

  -- The task is over.
  record IsOver (told : List (Watcher Sink)) (t : TaskOf) : Type 0 where
    phase : t.phase ≡ over
    signalled : t.signalled ≡ told
    closed : t.context.registries self_id ≡ none

  step-IsOver :
      (m : MoveOf) (told : List (Watcher Sink)) (t : TaskOf)
      → IsOver told t
      → IsOver told (step A C self_id own_sink strategy m t)
  unfolding step own_registry
  step-IsOver (arrives m) told t v = record {
    phase = v.phase;
    signalled = v.signalled;
    closed = v.closed;
  }
  step-IsOver (other_terminates i e) told t v = record {
    phase = v.phase;
    signalled = v.signalled;
    closed =
        unfold terminates in
        (elim (Bool-cases (nat_eq i self_id)) [
          | inl q ↦ absurd (e ((nat_eq_iff i self_id).0 q))
          | inr q ↦ rw q v.closed
        ]);
  }
  step-IsOver (other_watches i sink e) told t v = record {
    phase = v.phase;
    signalled = v.signalled;
    closed = rw ((own_self A C self_id own_sink strategy), v.closed) (unfold add in refl);
  }
  step-IsOver (other_unwatches i e) told t v = record {
    phase = v.phase;
    signalled = v.signalled;
    closed = rw ((own_self A C self_id own_sink strategy), v.closed) (unfold remove in refl);
  }
  step-IsOver (goes_on stopped elapsed parent) told t v =
      subst (λ p. IsOver told (advance A C self_id own_sink strategy p stopped elapsed parent t))
        (sym v.phase) (unfold advance in v)

  run-IsOver :
      (ms : List MoveOf) (told : List (Watcher Sink)) (t : TaskOf)
      → IsOver told t
      → IsOver told (run A C self_id own_sink strategy ms t)
  run-IsOver [] told t v = v
  run-IsOver (m ∷ ms) told t v =
      run-IsOver ms told (step A C self_id own_sink strategy m t) (step-IsOver m told t v)

  signalling-IsOver :
      (stopped : Bool) (elapsed : Duration) (parent : Parent) (t : TaskOf)
      → t.phase ≡ signalling
      → IsOver
          (take_watchers (t.context.registries self_id)).0
          (step A C self_id own_sink strategy (goes_on stopped elapsed parent) t)
  unfolding step
  signalling-IsOver stopped elapsed parent t e =
      subst
        (λ p.
          IsOver (take_watchers (t.context.registries self_id)).0
            (advance A C self_id own_sink strategy p stopped elapsed parent t))
        (sym e)
        (unfold advance in
          (unfold signal_watchers in
            (record {
              phase = refl;
              signalled = refl;
              closed =
                  rw (own_self A C self_id own_sink strategy)
                    (take_watchers-closed (t.context.registries self_id));
            })))

  -- A task is in `terminate`, with an open registry, and does all its steps but the last (`before`),
  -- the last one, and goes on (`after`), while others do what they like. It ends, and of the other
  -- actors those are signalled, each of them once, that stood in the registry and did not unwatch
  -- before the last step, or watched before it and did not unwatch again; whoever watches later is
  -- refused.
  pub signalled-run :
      (before after : List (Move A.Message Sink self_id)) (stopped : Bool) (elapsed : Duration)
      (parent : Parent) (t : Task A C self_id own_sink strategy) (d : Dict ActorId (Watcher Sink))
      (j : ActorId)
      → steps_left A C self_id own_sink strategy t.phase
        ≡ some (suc (own_steps A C self_id own_sink strategy before))
      → t.context.registries self_id ≡ some d
      → IsOpen d
      → j ≢ self_id
      → let t' = run A C self_id own_sink strategy after (
          step A C self_id own_sink strategy
            (goes_on stopped elapsed parent)
            (run A C self_id own_sink strategy before t)) in
        (t'.phase ≡ over)
        × (signals j t'.signalled ≡ (
            if is_watching j (own_calls A C self_id own_sink strategy before) (is_some (lookup j d))
            then 1
            else 0))
        × ((w : Watcher Sink) → (add w (t'.context.registries self_id)).0 ≡ err actor_terminated)
  signalled-run before after stopped elapsed parent t d j h open_now v n =
      let f = λ (j : ActorId).
        is_watching j (own_calls A C self_id own_sink strategy before) (is_some (lookup j d)) in
      let t1 = run A C self_id own_sink strategy before t in
      let k = own_steps A C self_id own_sink strategy before in
      let ends = (run-terminate A C self_id own_sink strategy before t (suc k) h).0 in
      let watched =
        run-IsWatchedBy A C self_id own_sink strategy before (suc k) (λ j. is_some (lookup j d)) t h
          (omega arith)
          (subst (IsWatchedBy A C self_id own_sink strategy (λ j. is_some (lookup j d)))
            (sym open_now) (v, λ j _. refl)) in
      let is_over = run-IsOver after (take_watchers (t1.context.registries self_id)).0 _ (
        signalling-IsOver stopped elapsed parent t1
          (last_step t1.phase (ends ∙ ap some (omega arith)))) in
      (
        is_over.phase,
        ap (signals j) is_over.signalled ∙ taken_lem f (t1.context.registries self_id) j watched n,
        λ w. rw is_over.closed (unfold add in refl),
      )
