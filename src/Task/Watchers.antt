-- ===== src/Task/Watchers.antt =====
-- tellus/src/actor_context.rs, `terminate`: who is told of the termination, with watches and
-- unwatches of others in every order.
use mathlib.Core.Path.{subst}
use tellus.Prelude.{
  zero, suc, ℕ, ◌<◌, ◌≡◌, ◌≢◌, refl, ap, sym, ◌∙◌, Bool, true, false, Bool-cases, inl, inr, none,
  some, List, [], ◌∷◌, nat_eq, nat_eq_iff, arith, if◌then◌else◌,
}
use tellus.Prelude.Dict.{nat_key, Dict, lookup}
use tellus.Backoff.{Duration}
use tellus.Config.{SupervisionStrategy}
use tellus.Supervision.{Parent}
use tellus.Actor.{ActorId, Incoming}
use tellus.Channel.{Channel}
use tellus.Mailbox.Registry.{Watcher, WatcherRegistry, add, remove}
use tellus.Mailbox.Registry.Closing.{
  Call, adds, removes, is_watching, is_some, IsOpen, add_lem, remove_lem,
}
use tellus.Watching.{Watching, set_registry, terminates}
use tellus.Task.{
  Acting, Phase, starting, serving, failed, stopping, dropping_mailbox, unwatching,
  stopping_children, signalling, over, Move, arrives, other_terminates, other_watches,
  other_unwatches, goes_on, Task, remove_all, drop_watched, drain_mailbox, drop_mailbox, advance,
  own_registry, step, run,
}
use tellus.Task.Stopping.{steps_left, own_steps, advance-IsEnding}

module _ {Sink : Type 0} (A : Acting) (C : Channel (Incoming A.Message)) (self_id : ActorId)
    (own_sink : Sink) (strategy : SupervisionStrategy) where
  abbrev TaskOf : Type 0
  TaskOf = Task A C self_id own_sink strategy

  abbrev MoveOf : Type 0
  MoveOf = Move A.Message Sink self_id

  -- What others do in the actor's own registry.
  abbrev pub own_calls : List (Move A.Message Sink self_id) → List (Call Sink)
  own_calls [] = []
  own_calls (arrives m ∷ ms) = own_calls ms
  own_calls (other_terminates i n ∷ ms) = own_calls ms
  own_calls (other_watches i sink n ∷ ms) =
      adds (record { watcher_id = i; terminated_sink = sink }) ∷ own_calls ms
  own_calls (other_unwatches i n ∷ ms) = removes i ∷ own_calls ms
  own_calls (goes_on stopped elapsed parent ∷ ms) = own_calls ms

  -- Who stands in a registry that is open, but for the actor itself.
  abbrev pub IsWatchedBy : (ActorId → Bool) → WatcherRegistry Sink → Type 0
  IsWatchedBy f none = ⊥
  IsWatchedBy f (some d) = IsOpen d × ((j : ActorId) → j ≢ self_id → is_some (lookup j d) ≡ f j)

  add-IsWatchedBy :
      (w : Watcher Sink) (f : ActorId → Bool) (r : WatcherRegistry Sink)
      → IsWatchedBy f r
      → IsWatchedBy (λ j. if nat_eq w.watcher_id j then true else f j) (add w r).1
  add-IsWatchedBy w f none v = absurd v
  add-IsWatchedBy w f (some d) (v, h) =
      let (d', e, v', h') = add_lem w d v in
      subst (IsWatchedBy (λ j. if nat_eq w.watcher_id j then true else f j)) (sym e)
        (v', λ j n. h' j ∙ ap (λ (b : Bool). if nat_eq w.watcher_id j then true else b) (h j n))

  remove-IsWatchedBy :
      (i : ActorId) (f : ActorId → Bool) (r : WatcherRegistry Sink)
      → IsWatchedBy f r
      → IsWatchedBy (λ j. if nat_eq i j then false else f j) (remove i r)
  remove-IsWatchedBy i f none v = absurd v
  remove-IsWatchedBy i f (some d) (v, h) =
      let (e, v', h') = remove_lem i d v in
      subst (IsWatchedBy (λ j. if nat_eq i j then false else f j)) (sym e)
        (v', λ j n. h' j ∙ ap (λ (b : Bool). if nat_eq i j then false else b) (h j n))

  remove_self-IsWatchedBy :
      (f : ActorId → Bool) (r : WatcherRegistry Sink)
      → IsWatchedBy f r
      → IsWatchedBy f (remove self_id r)
  remove_self-IsWatchedBy f none v = absurd v
  remove_self-IsWatchedBy f (some d) (v, h) =
      let (e, v', h') = remove_lem self_id d v in
      subst (IsWatchedBy f) (sym e)
        (v', λ j n. ground (arith, h' j, h j n, n, nat_eq_iff self_id j))

  remove_all-IsWatchedBy :
      (watched : Dict ActorId (Unit {0})) (f : ActorId → Bool) (rs : ActorId → WatcherRegistry Sink)
      → IsWatchedBy f (rs self_id)
      → IsWatchedBy f (remove_all A C self_id own_sink strategy watched rs self_id)
  unfolding remove_all
  remove_all-IsWatchedBy [] f rs v = v
  remove_all-IsWatchedBy ((other, _) ∷ watched) f rs v =
      let left = set_registry C self_id own_sink rs other (remove self_id (rs other)) in
      remove_all-IsWatchedBy watched f left (elim (Bool-cases (nat_eq other self_id)) [
        | inl q ↦ rw q (
            subst (λ k. IsWatchedBy f (remove self_id (rs k)))
              (sym ((nat_eq_iff other self_id).0 q)) (remove_self-IsWatchedBy f (rs self_id) v))
        | inr q ↦ rw q v
      ])

  drop_watched-IsWatchedBy :
      (f : ActorId → Bool) (s : Watching C self_id own_sink)
      → IsWatchedBy f (s.registries self_id)
      → IsWatchedBy f ((drop_watched A C self_id own_sink strategy s).registries self_id)
  unfolding drop_watched
  drop_watched-IsWatchedBy f s v = remove_all-IsWatchedBy s.watched f s.registries v

  pub own_self : nat_eq self_id self_id ≡ true
  own_self = (nat_eq_iff self_id self_id).1 refl

  -- The watchers are taken no earlier than in the last step.
  advance-IsWatchedBy :
      (p : Phase A.State) (stopped : Bool) (elapsed : Duration) (parent : Parent) (n : ℕ)
      (f : ActorId → Bool) (t : TaskOf)
      → steps_left A C self_id own_sink strategy p ≡ some (suc (suc n))
      → IsWatchedBy f (t.context.registries self_id)
      → IsWatchedBy f (
          (advance A C self_id own_sink strategy p stopped elapsed parent t).context.registries
            self_id)
  unfolding advance drain_mailbox drop_mailbox
  advance-IsWatchedBy starting stopped elapsed parent n f t h v = absurd (cc h)
  advance-IsWatchedBy (serving state) stopped elapsed parent n f t h v = absurd (cc h)
  advance-IsWatchedBy (failed up) stopped elapsed parent n f t h v = absurd (cc h)
  advance-IsWatchedBy stopping stopped elapsed parent n f t h v = v
  advance-IsWatchedBy dropping_mailbox stopped elapsed parent n f t h v = v
  advance-IsWatchedBy stopping_children stopped elapsed parent n f t h v = v
  advance-IsWatchedBy unwatching stopped elapsed parent n f t h v =
      drop_watched-IsWatchedBy f t.context v
  advance-IsWatchedBy signalling stopped elapsed parent n f t h v = absurd (ground (arith, h))
  advance-IsWatchedBy over stopped elapsed parent n f t h v = absurd (ground (arith, h))

  pub run-IsWatchedBy :
      (ms : List (Move A.Message Sink self_id)) (n : ℕ) (f : ActorId → Bool)
      (t : Task A C self_id own_sink strategy)
      → steps_left A C self_id own_sink strategy t.phase ≡ some n
      → own_steps A C self_id own_sink strategy ms < n
      → IsWatchedBy f (t.context.registries self_id)
      → IsWatchedBy
          (λ j. is_watching j (own_calls ms) (f j))
          ((run A C self_id own_sink strategy ms t).context.registries self_id)
  unfolding step own_registry
  run-IsWatchedBy [] n f t h l v = v
  run-IsWatchedBy (arrives m ∷ ms) n f t h l v =
      run-IsWatchedBy ms n f (step A C self_id own_sink strategy (arrives m) t) h l v
  run-IsWatchedBy (other_terminates i e ∷ ms) n f t h l v =
      run-IsWatchedBy ms n f (step A C self_id own_sink strategy (other_terminates i e) t) h l (
        unfold terminates in
        (elim (Bool-cases (nat_eq i self_id)) [
          | inl q ↦ absurd (e ((nat_eq_iff i self_id).0 q))
          | inr q ↦ rw q v
        ]))
  run-IsWatchedBy (other_watches i sink e ∷ ms) n f t h l v =
      let w : Watcher Sink = record { watcher_id = i; terminated_sink = sink } in
      run-IsWatchedBy ms n (λ j. if nat_eq i j then true else f j)
        (step A C self_id own_sink strategy (other_watches i sink e) t) h l
        (rw own_self (add-IsWatchedBy w f (t.context.registries self_id) v))
  run-IsWatchedBy (other_unwatches i e ∷ ms) n f t h l v =
      run-IsWatchedBy ms n (λ j. if nat_eq i j then false else f j)
        (step A C self_id own_sink strategy (other_unwatches i e) t) h l
        (rw own_self (remove-IsWatchedBy i f (t.context.registries self_id) v))
  run-IsWatchedBy (goes_on stopped elapsed parent ∷ ms) zero f t h l v = absurd (omega (arith, l))
  run-IsWatchedBy (goes_on stopped elapsed parent ∷ ms) (suc zero) f t h l v =
      absurd (omega (arith, l))
  run-IsWatchedBy (goes_on stopped elapsed parent ∷ ms) (suc (suc n)) f t h l v =
      run-IsWatchedBy ms (suc n) f
        (step A C self_id own_sink strategy (goes_on stopped elapsed parent) t)
        ((advance-IsEnding A C self_id own_sink strategy t.phase stopped elapsed parent
            (suc (suc n)) t refl h).left
          ∙ ap some (omega arith))
        (omega (arith, l)) (advance-IsWatchedBy t.phase stopped elapsed parent n f t h v)
