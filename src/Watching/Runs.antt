-- ===== src/Watching/Runs.antt =====
-- tellus/src/actor_context.rs: whatever the watcher and the watched actors do, in any order.
use tellus.Prelude.{
  ◌+◌, ◌≤◌, ◌≡◌, refl, ap, sym, ◌∙◌, false, Bool-cases, inl, inr, Option, none, some, List, [], ◌∷◌,
  nat_eq, nat_eq_iff, arith,
}
use tellus.Prelude.Dict.{nat_key, lookup, lookup-erase}
use tellus.Actor.{ActorId, Incoming}
use tellus.Channel.{Channel, IsChannel}
use tellus.Mailbox.Registry.{WatcherRegistry, add, remove, take_watchers}
use tellus.Mailbox.Registry.Closing.{signals, signals-values}
use tellus.Watching.{
  Watching, make_watcher, watch, unwatch_known, unwatch, signal_all, terminates, filter_signal,
  next_incoming, Move, watches, unwatches, other_terminates, takes_next, step, run,
}
use tellus.Watching.Receiving.{next_incoming_rule}
use tellus.Watching.Delivery.{
  signal_count, registered, IsSound, queued_signals, IsWatching, IsSent, signal_all-IsSent,
  add-IsSound, remove-IsSound, set_registry-IsSound, watch_lem,
}

module _ {M Sink : Type 0} (C : Channel (Incoming M)) (L : IsChannel C) (self_id : ActorId)
    (own_sink : Sink) where
  pub watch-IsWatching :
      (other : ActorId) (s : Watching C self_id own_sink)
      → IsWatching C L self_id own_sink s
      → IsWatching C L self_id own_sink (watch C self_id own_sink other s)
  unfolding watch
  watch-IsWatching other s v =
      let r = add (make_watcher C self_id own_sink) (s.registries other) in
      let (sound, one) = add-IsSound C L self_id own_sink (s.registries other) (v.sound other) in
      watch_lem C L self_id own_sink other s r.0 r.1 v sound one

  pub unwatch_known-IsWatching :
      (o : Option (Unit {0})) (other : ActorId) (s : Watching C self_id own_sink)
      → IsWatching C L self_id own_sink s
      → IsWatching C L self_id own_sink (unwatch_known C self_id own_sink o other s)
  unfolding unwatch_known
  unwatch_known-IsWatching none other s v = v
  unwatch_known-IsWatching (some _) other s v = record {
    connected = v.connected;
    sound =
        set_registry-IsSound C L self_id own_sink s.registries other
          (remove self_id (s.registries other)) v.sound
          (remove-IsSound C L self_id own_sink (s.registries other) (v.sound other));
    covered = λ j h. elim (Bool-cases (nat_eq other j)) [
      | inl e ↦ absurd (ground (arith, h, e, lookup-erase other j s.watched))
      | inr e ↦ rw e (v.covered j (ground (arith, h, e, lookup-erase other j s.watched)))
    ];
  }

  -- What is told on termination is what stood in the registry.
  told_lem :
      (r : WatcherRegistry Sink)
      → IsSound C L self_id own_sink r
      → (signals self_id (take_watchers r).0 ≡ registered C L self_id own_sink r)
        × IsSound C L self_id own_sink (take_watchers r).1
  unfolding take_watchers
  told_lem none v = (refl, tt)
  told_lem (some d) v = (signals-values self_id d v.keyed v.nodup, tt)

  pub terminates-IsWatching :
      (other : ActorId) (s : Watching C self_id own_sink)
      → IsWatching C L self_id own_sink s
      → IsWatching C L self_id own_sink (terminates C self_id own_sink other s)
  unfolding terminates
  terminates-IsWatching other s v =
      let (told, r) = take_watchers (s.registries other) in
      let (count, sound) = told_lem (s.registries other) (v.sound other) in
      let sent : (j : ActorId)
          → IsSent C L self_id own_sink j other (signals self_id told) s.mailbox
              (signal_all C self_id own_sink other told s.mailbox) =
        λ j. signal_all-IsSent C L self_id own_sink j other told s.mailbox v.connected in
      record {
        connected = (sent other).connected;
        sound = set_registry-IsSound C L self_id own_sink s.registries other r v.sound sound;
        covered = λ j h. elim (Bool-cases (nat_eq other j)) [
          | inl e ↦ rw e (
              let there =
                ap (λ k. registered C L self_id own_sink (s.registries k))
                  ((nat_eq_iff other j).0 e) in
              ground (arith, e, there, count, (sent j).counted, v.covered j h))
          | inr e ↦ rw e (ground (arith, e, (sent j).counted, v.covered j h))
        ];
      }

  -- A signal has been taken from the queue: all others are as they were.
  record IsWatchingBut (other : ActorId) (s : Watching C self_id own_sink) : Type 0 where
    connected : C.is_disconnected s.mailbox.1 ≡ false
    sound : (j : ActorId) → IsSound C L self_id own_sink (s.registries j)
    covered :
        (j : ActorId)
        → nat_eq other j ≡ false
        → lookup j s.watched ≡ some tt
        → 1
          ≤ registered C L self_id own_sink (s.registries j)
            + queued_signals C L self_id own_sink j s.mailbox

  filter_signal-IsWatching :
      (o : Option (Unit {0})) (other : ActorId) (s : Watching C self_id own_sink)
      → IsWatchingBut other s
      → lookup other s.watched ≡ o
      → IsWatching C L self_id own_sink (filter_signal C self_id own_sink o other s).1
  unfolding filter_signal
  filter_signal-IsWatching none other s v unwatched = record {
    connected = v.connected;
    sound = v.sound;
    covered = λ j h. elim (Bool-cases (nat_eq other j)) [
      | inl e ↦
          absurd (cc (sym unwatched ∙ ap (λ k. lookup k s.watched) ((nat_eq_iff other j).0 e) ∙ h))
      | inr e ↦ v.covered j e h
    ];
  }
  filter_signal-IsWatching (some _) other s v was = record {
    connected = v.connected;
    sound = v.sound;
    covered = λ j h. elim (Bool-cases (nat_eq other j)) [
      | inl e ↦ absurd (ground (arith, h, e, lookup-erase other j s.watched))
      | inr e ↦ v.covered j e (ground (arith, h, e, lookup-erase other j s.watched))
    ];
  }

  pub next_incoming-IsWatching :
      (s : Watching C self_id own_sink)
      → IsWatching C L self_id own_sink s
      → IsWatching C L self_id own_sink (next_incoming C self_id own_sink s).1
  next_incoming-IsWatching s v =
      next_incoming_rule C L self_id own_sink (λ r. IsWatching C L self_id own_sink r.1) s (λ _. v)
        (λ m q taken. record {
          connected = taken.same ∙ v.connected;
          sound = v.sound;
          covered = λ j h. omega (arith, v.covered j h, ap (signal_count j) taken.first);
        })
        (λ other q taken.
          filter_signal-IsWatching (lookup other s.watched) other (record s { mailbox = q })
            (record {
              connected = taken.same ∙ v.connected;
              sound = v.sound;
              covered =
                  λ j ne h. ground (arith, ne, v.covered j h, ap (signal_count j) taken.first);
            })
            refl)

  step-IsWatching :
      (m : Move) (s : Watching C self_id own_sink)
      → IsWatching C L self_id own_sink s
      → IsWatching C L self_id own_sink (step C self_id own_sink m s)
  unfolding step unwatch
  step-IsWatching (watches other) s v = watch-IsWatching other s v
  step-IsWatching (unwatches other) s v =
      unwatch_known-IsWatching (lookup other s.watched) other s v
  step-IsWatching (other_terminates other) s v = terminates-IsWatching other s v
  step-IsWatching takes_next s v = next_incoming-IsWatching s v

  -- In every run of watches, unwatches, terminations of others and received messages and signals, each
  -- actor that the watcher still watches either has the watcher in its registry or has a signal in
  -- the watcher's queue, so its termination never goes unseen, whether it comes before the watch,
  -- between the watch and anything else, or later.
  run-IsWatching :
      (ms : List Move) (s : Watching C self_id own_sink)
      → IsWatching C L self_id own_sink s
      → IsWatching C L self_id own_sink (run C self_id own_sink ms s)
  run-IsWatching [] s v = v
  run-IsWatching (m ∷ ms) s v =
      run-IsWatching ms (step C self_id own_sink m s) (step-IsWatching m s v)
