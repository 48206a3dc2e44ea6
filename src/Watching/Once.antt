-- ===== src/Watching/Once.antt =====
-- tellus/src/actor_context.rs: each watch yields one signal at most.
use tellus.Prelude.{
  ℕ, ◌+◌, ◌≤◌, ◌≡◌, refl, ap, Option, none, some, List, [], ◌∷◌, Result, ok, err, nat_eq,
  nat_eq_iff, arith, if◌then◌else◌,
}
use tellus.Prelude.Dict.{nat_key, lookup, insert, lookup-insert, lookup-erase}
use tellus.Actor.{ActorId, Incoming, message, terminated}
use tellus.Channel.{Channel}
use tellus.Mailbox.{ActorTerminated, try_recv}
use tellus.Mailbox.Registry.{add}
use tellus.Watching.{
  Watching, make_watcher, signal_unless, watch, unwatch_known, unwatch, terminates, filter_signal,
  filter_incoming, next_incoming, Move, watches, unwatches, other_terminates, takes_next, step, run,
}

-- Whether what the actor is handed is the signal of the given actor.
abbrev pub is_signal_of : {M : Type 0} → ActorId → Option (Incoming M) → ℕ
is_signal_of j none = 0
is_signal_of j (some (message m)) = 0
is_signal_of j (some (terminated other)) = if nat_eq other j then 1 else 0

abbrev pub noted : Option (Unit {0}) → ℕ
noted none = 0
noted (some _) = 1

module _ {M Sink : Type 0} (C : Channel (Incoming M)) (self_id : ActorId) (own_sink : Sink) where
  abbrev pub is_watched : ActorId → Watching C self_id own_sink → ℕ
  is_watched j s = noted (lookup j s.watched)

  abbrev pub handed : ActorId → Move → Watching C self_id own_sink → ℕ
  handed j (watches other) s = 0
  handed j (unwatches other) s = 0
  handed j (other_terminates other) s = 0
  handed j takes_next s = is_signal_of j (next_incoming C self_id own_sink s).0

  abbrev pub signals_handed : ActorId → List Move → Watching C self_id own_sink → ℕ
  signals_handed j [] s = 0
  signals_handed j (m ∷ ms) s = handed j m s + signals_handed j ms (step C self_id own_sink m s)

  abbrev watch_of : ActorId → Move → ℕ
  watch_of j (watches other) = if nat_eq other j then 1 else 0
  watch_of j (unwatches other) = 0
  watch_of j (other_terminates other) = 0
  watch_of j takes_next = 0

  abbrev pub watch_count : ActorId → List Move → ℕ
  watch_count j [] = 0
  watch_count j (m ∷ ms) = watch_of j m + watch_count j ms

  watched-signal_unless :
      (r : Result (Unit {0}) ActorTerminated) (other : ActorId) (s : Watching C self_id own_sink)
      → (signal_unless C self_id own_sink r other s).watched ≡ s.watched
  unfolding signal_unless
  watched-signal_unless (ok _) other s = refl
  watched-signal_unless (err e) other s = refl

  watched-watch :
      (other : ActorId) (s : Watching C self_id own_sink)
      → (watch C self_id own_sink other s).watched ≡ insert other tt s.watched
  unfolding watch
  watched-watch other s =
      watched-signal_unless (add (make_watcher C self_id own_sink) (s.registries other)).0 other _

  unwatch_known_lem :
      (j : ActorId) (o : Option (Unit {0})) (other : ActorId) (s : Watching C self_id own_sink)
      → is_watched j (unwatch_known C self_id own_sink o other s) ≤ is_watched j s
  unfolding unwatch_known
  unwatch_known_lem j none other s = omega arith
  unwatch_known_lem j (some _) other s = ground (arith, lookup-erase other j s.watched)

  filter_signal_lem :
      (j : ActorId) (o : Option (Unit {0})) (other : ActorId) (s : Watching C self_id own_sink)
      → lookup other s.watched ≡ o
      → is_signal_of j (filter_signal C self_id own_sink o other s).0
          + is_watched j (filter_signal C self_id own_sink o other s).1
        ≤ is_watched j s
  unfolding filter_signal
  filter_signal_lem j none other s e = omega arith
  filter_signal_lem j (some _) other s e =
      ground (arith, lookup-erase other j s.watched, e, ap (λ k. lookup k s.watched))

  filter_incoming_lem :
      (j : ActorId) (o : Option (Incoming M)) (s : Watching C self_id own_sink)
      → is_signal_of j (filter_incoming C self_id own_sink o s).0
          + is_watched j (filter_incoming C self_id own_sink o s).1
        ≤ is_watched j s
  unfolding filter_incoming
  filter_incoming_lem j none s = omega arith
  filter_incoming_lem j (some (message m)) s = omega arith
  filter_incoming_lem j (some (terminated other)) s =
      filter_signal_lem j (lookup other s.watched) other s refl

  step_lem :
      (j : ActorId) (m : Move) (s : Watching C self_id own_sink)
      → handed j m s + is_watched j (step C self_id own_sink m s) ≤ watch_of j m + is_watched j s
  unfolding step unwatch terminates next_incoming
  step_lem j (watches other) s = ground (
    arith,
    ap (λ d. noted (lookup j d)) (watched-watch other s),
    lookup-insert other j tt s.watched,
  )
  step_lem j (unwatches other) s =
      omega (arith, unwatch_known_lem j (lookup other s.watched) other s)
  step_lem j (other_terminates other) s = omega arith
  step_lem j takes_next s =
      let r = try_recv C s.mailbox in
      omega (arith, filter_incoming_lem j r.0 (record s { mailbox = r.1 }))

  signals_handed-le :
      (j : ActorId) (ms : List Move) (s : Watching C self_id own_sink)
      → signals_handed j ms s + is_watched j (run C self_id own_sink ms s)
        ≤ watch_count j ms + is_watched j s
  signals_handed-le j [] s = omega arith
  signals_handed-le j (m ∷ ms) s =
      omega (arith, step_lem j m s, signals_handed-le j ms (step C self_id own_sink m s))

  unwatch_known_gone :
      (j : ActorId) (o : Option (Unit {0})) (s : Watching C self_id own_sink)
      → lookup j s.watched ≡ o
      → is_watched j (unwatch_known C self_id own_sink o j s) ≡ 0
  unfolding unwatch_known
  unwatch_known_gone j none s e = ap noted e
  unwatch_known_gone j (some _) s e = ground (arith, lookup-erase j j s.watched, nat_eq_iff j j)

  is_watched-unwatch :
      (j : ActorId) (s : Watching C self_id own_sink)
      → is_watched j (unwatch C self_id own_sink j s) ≡ 0
  unfolding unwatch
  is_watched-unwatch j s = unwatch_known_gone j (lookup j s.watched) s refl

  -- In every run, an actor is handed no more signals of another than it has called `watch` for it, one
  -- more where it watched it from the start, and what it still watches counts as one not yet handed.
  -- And wherever it unwatches the other, it is handed from then on no more signals of it than it calls
  -- `watch` for it after that: none without such a call, also with a signal in the queue.
  pub signals_handed_le :
      (j : ActorId) (ms later : List Move) (s : Watching C self_id own_sink)
      → (signals_handed j ms s + is_watched j (run C self_id own_sink ms s)
          ≤ watch_count j ms + is_watched j s)
        × (signals_handed j later (unwatch C self_id own_sink j (run C self_id own_sink ms s))
            ≤ watch_count j later)
  signals_handed_le j ms later s =
      let s' = unwatch C self_id own_sink j (run C self_id own_sink ms s) in
      let freed = is_watched-unwatch j (run C self_id own_sink ms s) in
      (signals_handed-le j ms s, omega (arith, signals_handed-le j later s', freed))
