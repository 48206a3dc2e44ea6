-- ===== src/Watching/Tidy.antt =====
-- tellus/src/actor_context.rs: what an actor's task knows of the actors that it watches agrees with
-- their registries.
use tellus.Prelude.{
  ◌≤◌, ◌≡◌, refl, ap, sym, ◌∙◌, false, Bool-cases, inl, inr, Option, none, some, nat_eq, nat_eq_iff,
  arith,
}
use tellus.Prelude.Dict.{nat_key, lookup, insert, lookup-insert, lookup-erase}
use tellus.Actor.{ActorId, Incoming}
use tellus.Channel.{Channel, IsChannel}
use tellus.Mailbox.Registry.{WatcherRegistry, add, remove, take_watchers}
use tellus.Mailbox.Registry.Closing.{take_watchers-closed, signals}
use tellus.Watching.{
  Watching, make_watcher, set_registry, signal_unless, watch, unwatch_known, unwatch, signal_all,
  terminates, filter_signal, next_incoming,
}
use tellus.Watching.Receiving.{next_incoming_rule}
use tellus.Watching.Delivery.{
  signal_count, registered, queued_signals, IsSent, send_terminated-IsSent, signal_all-IsSent,
}

module _ {M Sink : Type 0} (C : Channel (Incoming M)) (L : IsChannel C) (self_id : ActorId)
    (own_sink : Sink) where
  -- The actor stands only in registries of actors that it watches, and a signal in its queue is of an
  -- actor whose registry is closed.
  pub record IsTidy (s : Watching C self_id own_sink) : Type 0 where
    pub noted :
        (j : ActorId)
        → registered C L self_id own_sink (s.registries j) ≡ 1
        → lookup j s.watched ≡ some tt
    pub closed :
        (j : ActorId) → 1 ≤ queued_signals C L self_id own_sink j s.mailbox → s.registries j ≡ none

  -- `watch`, by what stands in the other's registry.
  watch_at :
      (other : ActorId) (s : Watching C self_id own_sink) (r : WatcherRegistry Sink)
      → C.is_disconnected s.mailbox.1 ≡ false
      → IsTidy s
      → s.registries other ≡ r
      → IsTidy (
          signal_unless C self_id own_sink
            (add (make_watcher C self_id own_sink) r).0
            other
            (record s {
              registries =
                  set_registry C self_id own_sink s.registries other
                    (add (make_watcher C self_id own_sink) r).1;
              watched = insert other tt s.watched;
            }))
  unfolding signal_unless add
  watch_at other s (some d) there v e = record {
    noted = λ j h. elim (Bool-cases (nat_eq other j)) [
      | inl q ↦ ground (arith, q, lookup-insert other j tt s.watched)
      | inr q ↦
          let old = v.noted j (rw q at h) in
          ground (arith, q, old, lookup-insert other j tt s.watched)
    ];
    closed = λ j h. elim (Bool-cases (nat_eq other j)) [
      | inl q ↦ absurd (cc (e, v.closed j h, ap s.registries ((nat_eq_iff other j).0 q)))
      | inr q ↦ rw q (v.closed j h)
    ];
  }
  watch_at other s none there v e =
      let sent : (j : ActorId) → IsSent C L self_id own_sink j other 1 s.mailbox _ =
        λ j. send_terminated-IsSent C L self_id own_sink j other s.mailbox there in
      record {
        noted = λ j h. elim (Bool-cases (nat_eq other j)) [
          | inl q ↦ ground (arith, q, lookup-insert other j tt s.watched)
          | inr q ↦
              let old = v.noted j (rw q at h) in
              ground (arith, q, old, lookup-insert other j tt s.watched)
        ];
        closed = λ j h. elim (Bool-cases (nat_eq other j)) [
          | inl q ↦ rw q refl
          | inr q ↦ rw q (v.closed j (ground (arith, q, (sent j).counted, h)))
        ];
      }

  pub watch-IsTidy :
      (other : ActorId) (s : Watching C self_id own_sink)
      → C.is_disconnected s.mailbox.1 ≡ false
      → IsTidy s
      → IsTidy (watch C self_id own_sink other s)
  unfolding watch
  watch-IsTidy other s there v = watch_at other s (s.registries other) there v refl

  pub registered-remove :
      (r : WatcherRegistry Sink) → registered C L self_id own_sink (remove self_id r) ≡ 0
  unfolding remove
  registered-remove none = refl
  registered-remove (some d) = ground (arith, lookup-erase self_id self_id d)

  unwatch_at :
      (o : Option (Unit {0})) (other : ActorId) (s : Watching C self_id own_sink)
      → IsTidy s
      → IsTidy (unwatch_known C self_id own_sink o other s)
  unfolding unwatch_known
  unwatch_at none other s v = v
  unwatch_at (some _) other s v = record {
    noted = λ j h. elim (Bool-cases (nat_eq other j)) [
      | inl q ↦ absurd (cc (rw q at h, registered-remove (s.registries other)))
      | inr q ↦
          let old = v.noted j (rw q at h) in ground (arith, q, old, lookup-erase other j s.watched)
    ];
    closed = λ j h. elim (Bool-cases (nat_eq other j)) [
      | inl q ↦ rw q (
          ap (remove self_id) (ap s.registries ((nat_eq_iff other j).0 q) ∙ v.closed j h)
          ∙ (unfold remove in refl))
      | inr q ↦ rw q (v.closed j h)
    ];
  }

  pub unwatch-IsTidy :
      (other : ActorId) (s : Watching C self_id own_sink)
      → IsTidy s
      → IsTidy (unwatch C self_id own_sink other s)
  unfolding unwatch
  unwatch-IsTidy other s v = unwatch_at (lookup other s.watched) other s v

  pub terminates-IsTidy :
      (other : ActorId) (s : Watching C self_id own_sink)
      → C.is_disconnected s.mailbox.1 ≡ false
      → IsTidy s
      → IsTidy (terminates C self_id own_sink other s)
  unfolding terminates
  terminates-IsTidy other s there v =
      let (told, r) = take_watchers (s.registries other) in
      let gone = take_watchers-closed (s.registries other) in
      let sent : (j : ActorId)
          → IsSent C L self_id own_sink j other (signals self_id told) s.mailbox
              (signal_all C self_id own_sink other told s.mailbox) =
        λ j. signal_all-IsSent C L self_id own_sink j other told s.mailbox there in
      record {
        noted = λ j h. elim (Bool-cases (nat_eq other j)) [
          | inl q ↦ absurd (cc (rw q at h, ap (registered C L self_id own_sink) gone))
          | inr q ↦ v.noted j (rw q at h)
        ];
        closed = λ j h. elim (Bool-cases (nat_eq other j)) [
          | inl q ↦ rw q gone
          | inr q ↦ rw q (v.closed j (ground (arith, q, (sent j).counted, h)))
        ];
      }

  -- A signal has been taken from the queue.
  filter_signal-IsTidy :
      (o : Option (Unit {0})) (other : ActorId) (s : Watching C self_id own_sink)
      → IsTidy s
      → s.registries other ≡ none
      → IsTidy (filter_signal C self_id own_sink o other s).1
  unfolding filter_signal
  filter_signal-IsTidy none other s v gone = v
  filter_signal-IsTidy (some _) other s v gone = record {
    noted = λ j h. elim (Bool-cases (nat_eq other j)) [
      | inl q ↦ absurd (
          cc (
            h,
            ap (registered C L self_id own_sink)
                (sym (ap s.registries ((nat_eq_iff other j).0 q)) ∙ gone),
          ))
      | inr q ↦ let old = v.noted j h in ground (arith, q, old, lookup-erase other j s.watched)
    ];
    closed = v.closed;
  }

  pub next_incoming-IsTidy :
      (s : Watching C self_id own_sink) → IsTidy s → IsTidy (next_incoming C self_id own_sink s).1
  next_incoming-IsTidy s v =
      next_incoming_rule C L self_id own_sink (λ r. IsTidy r.1) s (λ _. v)
        (λ m q taken. record {
          noted = v.noted;
          closed = λ j h. v.closed j (omega (arith, h, ap (signal_count j) taken.first));
        })
        (λ other q taken.
          filter_signal-IsTidy (lookup other s.watched) other (record s { mailbox = q })
            (record {
              noted = v.noted;
              closed = λ j h. v.closed j (ground (arith, h, ap (signal_count j) taken.first));
            })
            (v.closed other (ground (arith, ap (signal_count other) taken.first))))
