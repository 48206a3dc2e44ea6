-- ===== src/Root/Starting.antt =====
-- tellus/src/actor_system.rs, `watch_root`, which races with the root's termination, and what follows.
use mathlib.Core.Path.{subst}
use tellus.Prelude.{
  ◌≡◌, refl, ap, sym, ◌∙◌, Bool, true, false, not, ◌||◌, none, some, List, [], ◌∷◌, map,
}
use tellus.Prelude.Dict.{nat_key, Dict, lookup}
use tellus.Actor.{ActorId}
use tellus.Oneshot.{Oneshot, IsOneshot}
use tellus.Mailbox.Registry.{Watcher, WatcherRegistry, add, remove, take_watchers}
use tellus.Mailbox.Registry.Finding.{lookup-add, lookup-add_new, lookup-remove}
use tellus.Root.{
  Sink, root_sink, other_sink, RootMove, other_watches, other_unwatches, root_terminates, Move,
  root, ActorSystem, send_root_terminated, send_once, signal_watchers, watcher, root_step, new_root,
  expects, registered, watch_root, step, root_run, run, sink_held, is_told_to_stop,
}
use tellus.Root.Resolving.{
  is_over, ends, ends_before, calls_stop, system, Waits, Resolves, Watched, has_root_sink-lookup,
  signal_watchers-sent, run-Watched, send-Resolves,
}

module _ (O : Oneshot (Unit {0})) (fresh : ActorId) (L : IsOneshot O) where
  -- The system's ID is not in the registry.
  abbrev IsFree : Bool → WatcherRegistry Sink → Type 0
  IsFree true r = r ≡ none
  IsFree false r = (d : Dict ActorId (Watcher Sink)) × (r ≡ some d) × (lookup fresh d ≡ none)

  abbrev unwatched : WatcherRegistry Sink → ActorSystem O fresh
  unwatched r = system O fresh r none O.channel true false false

  -- Before the system watches the root, only the registry changes.
  abbrev Unwatched : Bool → ActorSystem O fresh → Type 0
  Unwatched t s = (r : WatcherRegistry Sink) × (s ≡ unwatched r) × IsFree t r

  step-Unwatched :
      (m : RootMove fresh) (t : Bool) (r : WatcherRegistry Sink)
      → IsFree t r
      → Unwatched (is_over t (root m)) (step O fresh (root m) (unwatched r))
  unfolding step root_step take_watchers signal_watchers add remove
  step-Unwatched root_terminates true none h = (none, refl, refl)
  step-Unwatched root_terminates false none h = (none, refl, refl)
  step-Unwatched root_terminates true (some d) h = absurd (cc h)
  step-Unwatched root_terminates false (some d) h =
      (none, signal_watchers-sent O fresh (map (λ e. e.1) d) none O.channel true false false, refl)
  step-Unwatched (other_watches i other) true r h =
      let w = watcher O fresh i other_sink in ((add w r).1, refl, ap (λ x. (add w x).1) h)
  step-Unwatched (other_watches i other) false r (d, is_open, own) =
      let w = watcher O fresh i other_sink in
      let (d', e, same) = lookup-add w fresh d other in
      ((add w r).1, refl, (d', ap (λ x. (add w x).1) is_open ∙ e, same ∙ own))
  step-Unwatched (other_unwatches i other) true r h = (remove i r, refl, ap (remove i) h)
  step-Unwatched (other_unwatches i other) false r (d, is_open, own) =
      let (d', e, same) = lookup-remove i fresh d other in
      (remove i r, refl, (d', ap (remove i) is_open ∙ e, same ∙ own))

  root_run-Unwatched :
      (ms : List (RootMove fresh)) (t : Bool) (s : ActorSystem O fresh)
      → Unwatched t s
      → Unwatched (ends_before t ms) (root_run O fresh ms s)
  root_run-Unwatched [] t s h = h
  root_run-Unwatched (m ∷ ms) t s (r, e, free) =
      let (r', e', free') = step-Unwatched m t r free in
      root_run-Unwatched ms (is_over t (root m)) (step O fresh (root m) s)
        (r', ap (step O fresh (root m)) e ∙ e', free')

  new-Waits : Waits O fresh L true O.channel
  new-Waits = L.new_channel

  watch_root-free :
      (t : Bool) (r : WatcherRegistry Sink)
      → IsFree t r
      → Watched O fresh L t false (watch_root O fresh (unwatched r))
  unfolding watch_root registered expects send_root_terminated send_once add
  watch_root-free true none gone = (refl, send-Resolves O fresh L true O.channel new-Waits, refl)
  watch_root-free true (some x) gone = absurd (cc gone)
  watch_root-free false none (d, is_open, own) = absurd (cc is_open)
  watch_root-free false (some x) (d, is_open, own) =
      let w = watcher O fresh fresh root_sink in
      let (d', e, found) = lookup-add_new w x (cc (is_open, own)) in
      (d', ap (λ a. a.1) e, found, refl, new-Waits, refl, refl)

  abbrev pub Outcome : Bool → Bool → ActorSystem O fresh → Type 0
  Outcome true stop s = Resolves O fresh s.is_held s.terminated_rx × (s.failed ≡ false)
  Outcome false stop s =
      Waits O fresh L s.is_held s.terminated_rx
      × (is_told_to_stop O fresh s ≡ stop)
      × (s.failed ≡ false)

  or_not : (a b stop : Bool) → a ≡ stop → a || not (b || true) ≡ stop
  or_not true b stop e = e
  or_not false true stop e = e
  or_not false false stop e = e

  Watched-Outcome :
      (t stop : Bool) (s : ActorSystem O fresh) → Watched O fresh L t stop s → Outcome t stop s
  unfolding is_told_to_stop
  Watched-Outcome true stop s (gone, shown, fine) = (shown, fine)
  Watched-Outcome false stop s (d, is_open, own, tx, waits, stopped, fine) =
      let held : sink_held O fresh s.registry ≡ true =
        ap (sink_held O fresh) is_open
        ∙ has_root_sink-lookup fresh (watcher O fresh fresh root_sink) d own refl in
      (
        waits,
        ap (λ b. s.stop_sent || not (s.is_held || b)) held
            ∙ or_not s.stop_sent s.is_held stop stopped,
        fine,
      )

  -- Whether the root terminates before the system has watched it or at any time after, and whatever
  -- other actors watch or unwatch: the wait for the termination is not over before it and is over
  -- with it, unless the system has been dropped, and `expect` never panics; and as long as the root
  -- has not terminated it is told to stop exactly if `stop` has been called, also where the system
  -- has been dropped.
  pub root_run-Outcome :
      (before : List (RootMove fresh)) (after : List (Move fresh))
      → Outcome
          (ends (ends_before false before) after)
          (calls_stop false after)
          (run O fresh after (watch_root O fresh (root_run O fresh before (new_root O fresh))))
  unfolding lookup
  root_run-Outcome before after =
      let (r, e, free) =
        root_run-Unwatched before false (new_root O fresh) (some [], refl, ([], refl, refl)) in
      let watched =
        subst (λ s. Watched O fresh L (ends_before false before) false (watch_root O fresh s))
          (sym e) (watch_root-free (ends_before false before) r free) in
      Watched-Outcome (ends (ends_before false before) after) (calls_stop false after)
        (run O fresh after (watch_root O fresh (root_run O fresh before (new_root O fresh))))
        (run-Watched O fresh L after (ends_before false before) false
          (watch_root O fresh (root_run O fresh before (new_root O fresh))) watched)
