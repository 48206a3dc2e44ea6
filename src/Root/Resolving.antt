-- ===== src/Root/Resolving.antt =====
-- tellus/src/actor_system.rs: `terminated` resolves once the root has terminated, and `stop` alone
-- stops it.
use tellus.Prelude.{
  ◌≡◌, refl, ap, ◌∙◌, Bool, true, false, ◌||◌, Option, none, some, List, [], ◌∷◌, map, arith,
}
use tellus.Prelude.Dict.{nat_key, Dict, lookup}
use tellus.Actor.{ActorId}
use tellus.Oneshot.{Oneshot, IsOneshot, pending, ready}
use tellus.Mailbox.Registry.{Watcher, WatcherRegistry, add, remove, take_watchers}
use tellus.Mailbox.Registry.Finding.{lookup-add, lookup-remove}
use tellus.Root.{
  Sink, root_sink, other_sink, has_root_sink, is_root_sink, RootMove, other_watches,
  other_unwatches, root_terminates, Move, root, stops, drops_system, ActorSystem,
  send_root_terminated, send_once, signal, signal_watchers, watcher, root_step, step, run,
}

pub has_root_sink-lookup :
    (i : ActorId) (w : Watcher Sink) (d : Dict ActorId (Watcher Sink))
    → lookup i d ≡ some w
    → w.terminated_sink ≡ root_sink
    → has_root_sink d ≡ true
unfolding lookup
has_root_sink-lookup i w [] h e = absurd (cc h)
has_root_sink-lookup i w ((j, v) ∷ d) h e =
    ground (arith, nat_key.same_iff i j, has_root_sink-lookup i w d)

abbrev pub is_end : {fresh : ActorId} → RootMove fresh → Bool
is_end root_terminates = true
is_end (other_watches i e) = false
is_end (other_unwatches i e) = false

-- Whether the root has terminated, and whether the system was told to stop it before.
abbrev pub is_over : {fresh : ActorId} → Bool → Move fresh → Bool
is_over true m = true
is_over false (root m) = is_end m
is_over false stops = false
is_over false drops_system = false

abbrev pub is_called : {fresh : ActorId} → Bool → Move fresh → Bool
is_called b stops = true
is_called b (root m) = b
is_called b drops_system = b

abbrev pub ends : {fresh : ActorId} → Bool → List (Move fresh) → Bool
ends b [] = b
ends b (m ∷ ms) = ends (is_over b m) ms

abbrev pub ends_before : {fresh : ActorId} → Bool → List (RootMove fresh) → Bool
ends_before b [] = b
ends_before b (m ∷ ms) = ends_before (is_over b (root m)) ms

abbrev pub calls_stop : {fresh : ActorId} → Bool → List (Move fresh) → Bool
calls_stop b [] = b
calls_stop b (m ∷ ms) = calls_stop (is_called b m) ms

module _ (O : Oneshot (Unit {0})) (fresh : ActorId) where
  abbrev pub system :
      WatcherRegistry Sink → Option (Unit {0}) → O.Chan → Bool → Bool → Bool → ActorSystem O fresh
  system r tx c held stop failed = record {
    registry = r;
    terminated_tx = tx;
    terminated_rx = c;
    is_held = held;
    stop_sent = stop;
    failed = failed;
  }

  signal-sent :
      (k : Sink) (r : WatcherRegistry Sink) (c : O.Chan) (held stop failed : Bool)
      → signal O fresh k (system r none c held stop failed) ≡ system r none c held stop failed
  unfolding signal send_root_terminated send_once
  signal-sent root_sink r c held stop failed = refl
  signal-sent other_sink r c held stop failed = refl

  pub signal_watchers-sent :
      (ws : List (Watcher Sink)) (r : WatcherRegistry Sink) (c : O.Chan) (held stop failed : Bool)
      → signal_watchers O fresh ws (system r none c held stop failed)
        ≡ system r none c held stop failed
  unfolding signal_watchers
  signal_watchers-sent [] r c held stop failed = refl
  signal_watchers-sent (w ∷ ws) r c held stop failed =
      ap (signal_watchers O fresh ws) (signal-sent w.terminated_sink r c held stop failed)
      ∙ signal_watchers-sent ws r c held stop failed

  signal-root :
      (k : Sink) (d : Dict ActorId (Watcher Sink)) (r : WatcherRegistry Sink) (c : O.Chan)
      (held stop failed : Bool)
      → (has_root_sink d ≡ true
          → signal_watchers O fresh (map (λ e. e.1) d) (system r (some tt) c held stop failed)
            ≡ system r none (O.send c tt).1 held stop failed)
      → is_root_sink k || has_root_sink d ≡ true
      → signal_watchers O fresh
          (map (λ e. e.1) d)
          (signal O fresh k (system r (some tt) c held stop failed))
        ≡ system r none (O.send c tt).1 held stop failed
  unfolding signal send_root_terminated send_once
  signal-root root_sink d r c held stop failed later h =
      signal_watchers-sent (map (λ e. e.1) d) r (O.send c tt).1 held stop failed
  signal-root other_sink d r c held stop failed later h = later h

  signal_watchers-root :
      (d : Dict ActorId (Watcher Sink)) (r : WatcherRegistry Sink) (c : O.Chan)
      (held stop failed : Bool)
      → has_root_sink d ≡ true
      → signal_watchers O fresh (map (λ e. e.1) d) (system r (some tt) c held stop failed)
        ≡ system r none (O.send c tt).1 held stop failed
  unfolding signal_watchers
  signal_watchers-root [] r c held stop failed h = absurd (cc h)
  signal_watchers-root ((i, w) ∷ d) r c held stop failed h =
      signal-root w.terminated_sink d r c held stop failed
        (signal_watchers-root d r c held stop failed) h

  -- What the system's receiver shows, as long as the system has it: nothing, or the termination.
  abbrev pub Waits : (L : IsOneshot O) → Bool → O.Chan → Type 0
  Waits L true c = (O.poll c ≡ pending) × (L.has_receiver c ≡ true)
  Waits L false c = Unit {0}

  abbrev pub Resolves : Bool → O.Chan → Type 0
  Resolves true c = O.poll c ≡ ready tt
  Resolves false c = Unit {0}

  -- By whether the root has terminated.
  abbrev pub Watched : IsOneshot O → Bool → Bool → ActorSystem O fresh → Type 0
  Watched L true stop s =
      (s.registry ≡ none) × Resolves s.is_held s.terminated_rx × (s.failed ≡ false)
  Watched L false stop s =
      (d : Dict ActorId (Watcher Sink)) × (s.registry ≡ some d)
      × (lookup fresh d ≡ some (watcher O fresh fresh root_sink))
      × (s.terminated_tx ≡ some tt)
      × Waits L s.is_held s.terminated_rx
      × (s.stop_sent ≡ stop)
      × (s.failed ≡ false)

  module _ (L : IsOneshot O) where
    pub send-Resolves : (held : Bool) (c : O.Chan) → Waits L held c → Resolves held (O.send c tt).1
    send-Resolves true c (e, there) = (L.send_received c tt e there).1
    send-Resolves false c h = tt

    terminates-Watched :
        (r : WatcherRegistry Sink) (tx : Option (Unit {0})) (c : O.Chan) (held sent failed : Bool)
        (d : Dict ActorId (Watcher Sink)) (stop : Bool)
        → r ≡ some d
        → has_root_sink d ≡ true
        → tx ≡ some tt
        → Waits L held c
        → failed ≡ false
        → Watched L true stop (root_step O fresh root_terminates (system r tx c held sent failed))
    unfolding root_step take_watchers
    terminates-Watched none tx c held sent failed d stop e own there waits fine = absurd (cc e)
    terminates-Watched (some x) none c held sent failed d stop e own there waits fine =
        absurd (cc there)
    terminates-Watched (some x) (some _) c held sent failed d stop e own there waits fine =
        let all = signal_watchers-root x none c held sent failed (cc (e, own)) in
        rw all (refl, send-Resolves held c waits, fine)

    alive-Watched :
        (m : RootMove fresh) (stop : Bool) (s : ActorSystem O fresh)
        → Watched L false stop s
        → Watched L (is_end m) stop (root_step O fresh m s)
    unfolding root_step
    alive-Watched (other_watches i other) stop s (d, is_open, own, tx, waits, stopped, fine) =
        let (d', e, same) = lookup-add (watcher O fresh i other_sink) fresh d other in
        (
          d',
          ap (λ r. (add (watcher O fresh i other_sink) r).1) is_open ∙ e,
          same ∙ own,
          tx,
          waits,
          stopped,
          fine,
        )
    alive-Watched (other_unwatches i other) stop s (d, is_open, own, tx, waits, stopped, fine) =
        let (d', e, same) = lookup-remove i fresh d other in
        (d', ap (remove i) is_open ∙ e, same ∙ own, tx, waits, stopped, fine)
    alive-Watched root_terminates stop s (d, is_open, own, tx, waits, stopped, fine) =
        terminates-Watched s.registry s.terminated_tx s.terminated_rx s.is_held s.stop_sent s.failed
          d stop is_open (has_root_sink-lookup fresh (watcher O fresh fresh root_sink) d own refl)
          tx waits fine

    gone-Watched :
        (m : RootMove fresh) (r : WatcherRegistry Sink) (tx : Option (Unit {0})) (c : O.Chan)
        (held sent failed stop : Bool)
        → r ≡ none
        → Resolves held c
        → failed ≡ false
        → Watched L true stop (root_step O fresh m (system r tx c held sent failed))
    unfolding root_step add remove take_watchers signal_watchers
    gone-Watched m (some d) tx c held sent failed stop e shown fine = absurd (cc e)
    gone-Watched (other_watches i other) none tx c held sent failed stop e shown fine =
        (refl, shown, fine)
    gone-Watched (other_unwatches i other) none tx c held sent failed stop e shown fine =
        (refl, shown, fine)
    gone-Watched root_terminates none tx c held sent failed stop e shown fine = (refl, shown, fine)

    step-Watched :
        (m : Move fresh) (t stop : Bool) (s : ActorSystem O fresh)
        → Watched L t stop s
        → Watched L (is_over t m) (is_called stop m) (step O fresh m s)
    unfolding step
    step-Watched (root m) true stop s (gone, shown, fine) =
        gone-Watched m s.registry s.terminated_tx s.terminated_rx s.is_held s.stop_sent s.failed
          stop gone shown fine
    step-Watched (root m) false stop s h = alive-Watched m stop s h
    step-Watched stops true stop s h = h
    step-Watched stops false stop s (d, is_open, own, tx, waits, stopped, fine) =
        (d, is_open, own, tx, waits, refl, fine)
    step-Watched drops_system true stop s (gone, shown, fine) = (gone, tt, fine)
    step-Watched drops_system false stop s (d, is_open, own, tx, waits, stopped, fine) =
        (d, is_open, own, tx, tt, stopped, fine)

    pub run-Watched :
        (ms : List (Move fresh)) (t stop : Bool) (s : ActorSystem O fresh)
        → Watched L t stop s
        → Watched L (ends t ms) (calls_stop stop ms) (run O fresh ms s)
    run-Watched [] t stop s h = h
    run-Watched (m ∷ ms) t stop s h =
        run-Watched ms (is_over t m) (is_called stop m) (step O fresh m s)
          (step-Watched m t stop s h)
